-- ===== src/Codebase/Index.antt =====
-- The index of names and arities: where it points, and what a commit leaves alone.
use subsea_cable_runtime.Base.{
  ℕ, suc, ◌≡◌, ◌⊎◌, refl, sym, ap, ◌∙◌, true, Option, none, some, String, List, [], ◌∷◌, ◌==◌, ◌&&◌,
  string_eq, nat_eq, pair_eq, if◌then◌else◌, get, put, get-put, is_some, arith, Bool-cases, inl,
  All, inr, Option-cases, beq_self,
}
use subsea_cable_runtime.Diag.{Err, Res, ok, err}
use subsea_cable_runtime.Sema.{SourceUnit}
use subsea_cable_runtime.Codebase.{Codebase, Artifact, rebind, new_codebase, rebind_found}
use subsea_cable_runtime.Codebase.Commit.{
  commit_unit, install, install_one, store, commit_staged, stage_goals,
}

-- Artifacts are stored under their hash, and every alias names a stored artifact of its name and
-- arity.
pub record IsAliased (c : Codebase) : Type 0 where
  pub keyed : (h : String) (a : Artifact) → get h c.artifacts ≡ some a → a.hash ≡ h
  pub bound :
      (k : String × ℕ) (h : String)
      → get k c.index ≡ some h
      → (a : Artifact) × (get h c.artifacts ≡ some a) × ((a.name, a.arity) ≡ k)

-- Every artifact stays what it was.
abbrev pub Extends : Codebase → Codebase → Type 0
Extends c c' = (h : String) → (get h c.artifacts ≡ none) ⊎ (get h c'.artifacts ≡ get h c.artifacts)

trans-Extends : (c d e : Codebase) → Extends c d → Extends d e → Extends c e
trans-Extends c d e f g h = by_first (f h) (g h)
  where
    by_first :
        (get h c.artifacts ≡ none) ⊎ (get h d.artifacts ≡ get h c.artifacts)
        → (get h d.artifacts ≡ none) ⊎ (get h e.artifacts ≡ get h d.artifacts)
        → (get h c.artifacts ≡ none) ⊎ (get h e.artifacts ≡ get h c.artifacts)
    by_first (inl x) y = inl x
    by_first (inr x) (inl y) = inl (sym x ∙ y)
    by_first (inr x) (inr y) = inr (y ∙ x)

pub new-IsAliased : IsAliased new_codebase
unfolding new_codebase get
new-IsAliased = record { keyed = λ h a e. cc; bound = λ k h e. cc }

-- An alias that is moved to a stored artifact of its name and arity.
alias-IsAliased :
    (c c' : Codebase) (k : String × ℕ) (h : String) (a : Artifact)
    → c'.artifacts ≡ c.artifacts
    → c'.index ≡ put k h c.index
    → get h c.artifacts ≡ some a
    → (a.name, a.arity) ≡ k
    → IsAliased c
    → IsAliased c'
alias-IsAliased c c' k h a arts idx stored named v = record {
  keyed = λ h' x e. v.keyed h' x (sym (ap (get h') arts) ∙ e);
  bound = λ k' h' e. by_key k' h' (sym (get-put k k' h c.index) ∙ sym (ap (get k') idx) ∙ e);
}
  where
    by_key :
        (k' : String × ℕ) (h' : String)
        → (if k == k' then some h else get k' c.index) ≡ some h'
        → (x : Artifact) × (get h' c'.artifacts ≡ some x) × ((x.name, x.arity) ≡ k')
    by_key k' h' e = elim (Bool-cases (k == k')) [
      | inl same ↦ (
        a,
        ap (get h') arts ∙ ground (arith, e, same, stored),
        named ∙ (pair_eq.beq_iff k k').0 same,
      )
      | inr other ↦
          let (x, at, name) = v.bound k' h' (ground (arith, e, other)) in
          (x, ap (get h') arts ∙ at, name)
    ]

-- A new artifact under its own hash.
add-IsAliased :
    (c : Codebase) (a : Artifact)
    → get a.hash c.artifacts ≡ none
    → IsAliased c
    → IsAliased (record c { artifacts = put a.hash a c.artifacts })
add-IsAliased c a free v = record {
  keyed = λ h x e.
      ground (arith, get-put a.hash h a c.artifacts, e, string_eq.beq_iff a.hash h, v.keyed h x);
  bound = λ k h e.
      let (x, at, name) = v.bound k h e in
      (
        x,
        ground (arith, get-put a.hash h a c.artifacts, at, free, string_eq.beq_iff a.hash h),
        name,
      );
}

add-Extends :
    (c : Codebase) (a : Artifact)
    → get a.hash c.artifacts ≡ none
    → Extends c (record c { artifacts = put a.hash a c.artifacts })
add-Extends c a free h = elim (Bool-cases (a.hash == h)) [
  | inl same ↦ inl (ap (λ x. get x c.artifacts) (sym ((string_eq.beq_iff a.hash h).0 same)) ∙ free)
  | inr other ↦ inr (get-put a.hash h a c.artifacts ∙ rw other)
]

module _ (sha256 : String → String) where
  install_one-IsAliased :
      (a : Artifact) (c : Codebase) → IsAliased c → IsAliased (install_one sha256 a c)
  unfolding install_one store
  install_one-IsAliased a c v = by_hash (get a.hash c.artifacts) refl
    where
      by_hash :
          (mo : Option Artifact) → get a.hash c.artifacts ≡ mo → IsAliased (store sha256 mo a c)
      by_hash (some old) e =
          alias-IsAliased c _ (old.name, old.arity) old.hash old refl refl
            (ap (λ h. get h c.artifacts) (v.keyed a.hash old e) ∙ e) refl v
      by_hash none e =
          alias-IsAliased (record c { artifacts = put a.hash a c.artifacts }) _ (a.name, a.arity)
            a.hash a refl refl
            (ground (arith, get-put a.hash a.hash a c.artifacts, beq_self a.hash)) refl
            (add-IsAliased c a e v)

  install_one-Extends : (a : Artifact) (c : Codebase) → Extends c (install_one sha256 a c)
  unfolding install_one store
  install_one-Extends a c = by_hash (get a.hash c.artifacts) refl
    where
      by_hash :
          (mo : Option Artifact) → get a.hash c.artifacts ≡ mo → Extends c (store sha256 mo a c)
      by_hash (some old) e h = inr refl
      by_hash none e h = add-Extends c a e h

  install-IsAliased :
      (staged : List Artifact) (c : Codebase) → IsAliased c → IsAliased (install sha256 staged c)
  unfolding install
  install-IsAliased [] c v = v
  install-IsAliased (a ∷ rest) c v =
      install-IsAliased rest (install_one sha256 a c) (install_one-IsAliased a c v)

  install-Extends : (staged : List Artifact) (c : Codebase) → Extends c (install sha256 staged c)
  unfolding install
  install-Extends [] c h = inr refl
  install-Extends (a ∷ rest) c h =
      trans-Extends c (install_one sha256 a c) (install sha256 rest (install_one sha256 a c))
        (install_one-Extends a c) (install-Extends rest (install_one sha256 a c)) h

  install_one-stored :
      (a : Artifact) (c : Codebase) → is_some (get a.hash (install_one sha256 a c).artifacts) ≡ true
  unfolding install_one store
  install_one-stored a c = elim (Option-cases (get a.hash c.artifacts)) [
    | inl e ↦ rw e (rw (get-put a.hash a.hash a c.artifacts) (rw (beq_self a.hash)))
    | inr (old, e) ↦ rw e (rw e)
  ]

  -- Each staged artifact's hash is stored after the installation.
  install-stored :
      (staged : List Artifact) (c : Codebase)
      → All (λ a. is_some (get a.hash (install sha256 staged c).artifacts) ≡ true) staged
  unfolding install
  install-stored [] c = tt
  install-stored (a ∷ rest) c = (
    by_later a rest c (install-Extends rest (install_one sha256 a c) a.hash),
    install-stored rest (install_one sha256 a c),
  )
    where
      by_later :
          (a : Artifact) (rest : List Artifact) (c : Codebase)
          → (get a.hash (install_one sha256 a c).artifacts ≡ none)
            ⊎ (get a.hash (install sha256 rest (install_one sha256 a c)).artifacts
                ≡ get a.hash (install_one sha256 a c).artifacts)
          → is_some (get a.hash (install sha256 rest (install_one sha256 a c)).artifacts) ≡ true
      by_later a rest c (inl e) = cc (install_one-stored a c, ap is_some e)
      by_later a rest c (inr e) = ap is_some e ∙ install_one-stored a c

  install_one-revision :
      (a : Artifact) (c : Codebase) → (install_one sha256 a c).revision ≡ c.revision
  unfolding install_one store
  install_one-revision a c = ground arith

  install-revision :
      (staged : List Artifact) (c : Codebase) → (install sha256 staged c).revision ≡ c.revision
  unfolding install
  install-revision [] c = refl
  install-revision (a ∷ rest) c =
      install-revision rest (install_one sha256 a c) ∙ install_one-revision a c

  -- CommitUnit keeps every artifact stored under its own hash and every alias at a stored
  -- artifact of the alias's name and arity.
  pub commit_unit-IsAliased :
      (c : Codebase) (u : SourceUnit) → IsAliased c → IsAliased (commit_unit sha256 c u).1
  unfolding commit_unit
  commit_unit-IsAliased c u v = by_staged (stage_goals sha256 c u.values u.goals)
    where
      by_staged : (r : Res (List Artifact)) → IsAliased (commit_staged sha256 c r).1
      by_staged (err e) = v
      by_staged (ok staged) =
          install-IsAliased staged (record c { revision = suc c.revision })
            (record { keyed = v.keyed; bound = v.bound })

  -- CommitUnit either fails and changes nothing at all, or moves the revision on by one, stores
  -- something under the hash of every staged artifact, and changes no artifact that was stored.
  pub commit_unit_atomic :
      (c : Codebase) (u : SourceUnit)
      → let r = commit_unit sha256 c u in
        ((e : Err) × (r.0 ≡ err e) × (r.1 ≡ c))
        ⊎ ((staged : List Artifact) × (r.0 ≡ ok (staged, suc c.revision))
            × (r.1.revision ≡ suc c.revision)
            × Extends c r.1
            × All (λ a. is_some (get a.hash r.1.artifacts) ≡ true) staged)
  unfolding commit_unit
  commit_unit_atomic c u = by_staged (stage_goals sha256 c u.values u.goals)
    where
      by_staged :
          (s : Res (List Artifact))
          → let r = commit_staged sha256 c s in
            ((e : Err) × (r.0 ≡ err e) × (r.1 ≡ c))
            ⊎ ((staged : List Artifact) × (r.0 ≡ ok (staged, suc c.revision))
                × (r.1.revision ≡ suc c.revision)
                × Extends c r.1
                × All (λ a. is_some (get a.hash r.1.artifacts) ≡ true) staged)
      by_staged (err e) = inl (e, refl, refl)
      by_staged (ok staged) = inr (
        staged,
        refl,
        install-revision staged (record c { revision = suc c.revision }),
        install-Extends staged (record c { revision = suc c.revision }),
        install-stored staged (record c { revision = suc c.revision }),
      )

-- Rebind keeps every artifact stored under its own hash and every alias at a stored artifact of
-- the alias's name and arity.
pub rebind-IsAliased :
    (c : Codebase) (name : String) (arity : ℕ) (hash : String)
    → IsAliased c
    → IsAliased (rebind c name arity hash).1
unfolding rebind
rebind-IsAliased c name arity hash v = by_artifact (get hash c.artifacts) refl
  where
    by_artifact :
        (mo : Option Artifact)
        → get hash c.artifacts ≡ mo
        → IsAliased (rebind_found c name arity hash mo).1
    by_artifact none e = v
    by_artifact (some a) e = elim (Bool-cases (a.name == name && a.arity == arity)) [
      | inr other ↦ rw other v
      | inl same ↦ rw same (
          alias-IsAliased c _ (name, arity) hash a refl refl e
            (ground (arith, same, string_eq.beq_iff a.name name, nat_eq.beq_iff a.arity arity)) v)
    ]
