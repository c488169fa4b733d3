-- ===== src/Tests/Data.antt =====
-- A unit with one Goal that is an Anchor leaf, and the Host, Codebase and Carousel around it.
use subsea_cable_runtime.Base.{true, false, String, none, [], ◌∷◌}
use subsea_cable_runtime.Diag.{Span, ok}
use subsea_cable_runtime.Value.{Value}
use subsea_cable_runtime.Syntax.{goal_arrow, anchor, nil, name, number_lit, no_suffix}
use subsea_cable_runtime.Expr.{Primitives, unit}
use subsea_cable_runtime.Sema.{GoalDef, SourceUnit}
use subsea_cable_runtime.Codebase.{Codebase, new_codebase, DeductionRecord}
use subsea_cable_runtime.Codebase.Commit.{commit_unit}
use subsea_cable_runtime.Carousel.{
  Config, Carousel, Occurrence, blank, kind_anchor, kind_goal, undeduced, new_carousel, register,
  ValueSource,
}
use subsea_cable_runtime.Carousel.Replenish.{open_root}

abbrev pub here : Span
here = record { line = 1; col = 1 }

abbrev pub host : Primitives
host = record {
  profile = "test";
  literal = λ t. ok (Value.string t);
  prim_unary = λ op v. ok v;
  prim_binary = λ op l r. ok l;
}

abbrev pub digest_text : String → String
digest_text s = s

abbrev pub config : Config
config = record { run_id = "run-1"; primitives = host; sha256 = digest_text; fuel = 4 }

abbrev pub ping : GoalDef
ping = record {
  name = "Ping";
  arity = 0;
  arrow =
      goal_arrow (record { names = []; destructure = false; span = here })
        (anchor "ping" true nil here) here;
  is_function = false;
  span = here;
}

-- `x = y`, `y = 1`, and the Root `Ping`.
abbrev pub source : SourceUnit
source = record {
  goals = ping ∷ [];
  values = record {
    values = ("x", name "y" "" no_suffix nil here) ∷ ("y", number_lit "1" here) ∷ [];
  };
  root = record { ident = "Ping"; hash = ""; args = nil; span = here };
  unsupported = [];
}

abbrev pub no_outputs : ValueSource
no_outputs occ = none

abbrev pub committed_base : Codebase
committed_base = (commit_unit digest_text new_codebase source).1

abbrev pub opened : Carousel
opened = (open_root config source (new_carousel committed_base 1)).1

-- A leaf that is published, over an empty Codebase.
abbrev pub leaf : Occurrence
leaf = record blank { id = "r.d"; kind = kind_anchor; leaf = "ping" }

abbrev pub published : Carousel
published = register config leaf (new_carousel new_codebase 1)

-- A Goal that waits for the output of `r.0`.
abbrev pub routed_goal : Occurrence
routed_goal = record blank {
  id = "r.1";
  kind = kind_goal;
  state = undeduced;
  name = "Ping";
  arity = 1;
  input = "r.0";
}

abbrev pub entry : DeductionRecord
entry = record {
  seq = 0;
  run_id = "run-1";
  occurrence = "r";
  reference_kind = "unqualified";
  requested_name = "Ping";
  requested_arity = 0;
  artifact_hash = "h";
  goal_node_id = "n";
  codebase_revision = 1;
  arguments = [];
  result = "$ping";
  lineages = [];
  primitive_profile = "test";
  cause = "demand";
}

-- The Root of `source`, as OpenRoot exposes it.
abbrev pub root : Occurrence
root = record blank {
  id = "r";
  kind = kind_goal;
  state = undeduced;
  seq = 1;
  name = "Ping";
  ref_kind = "unqualified";
  env = unit source.values;
  lineage = "Ping/0";
}

-- It stands alone, over an empty Codebase.
abbrev pub rooted : Carousel
rooted = register config root (new_carousel new_codebase 1)

-- The hash of `Ping`, with a digest that is the text itself.
abbrev pub ping_hash : String
ping_hash =
    "(artifact8p18:poc-sha256-canon/1i4:Pinga1:0(garrow2(P0)(anchor1i4:ping))v1:x(name4i1:yh0:a0:x1:0)v1:yn1:1)"
