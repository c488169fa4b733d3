-- ===== src/Runtime/Laws/Clock.antt =====
-- The clock runs forward, and the timeline holds its items in the order of their times and, at one
-- time, of their numbers.
use subsea_cable_runtime.Base.{ℕ, ◌≤◌, ◌≡◌, List, [], ◌∷◌, true, nat_eq}
use subsea_cable_runtime.Runtime.State.{TimelineItem, is_before}

abbrev pub First : TimelineItem → List TimelineItem → Type 0
First x [] = Unit
First x (y ∷ ys) = is_before x y ≡ true

-- Each item is before the next one, and no number is above `n`.
abbrev pub InOrder : ℕ → List TimelineItem → Type 0
InOrder n [] = Unit
InOrder n (x ∷ xs) = (x.seq ≤ n) × (First x xs × InOrder n xs)
