-- ===== src/Select/Names.antt =====
-- src/selectors.ts: the texts that name selections.
use trueform.Base.{◌≡◌, refl, Bool, ◌||◌, Option, none, some, List, [], ◌∷◌, any_of, if◌then◌else◌}
use trueform.Base.Text.{Str, codes}
use trueform.Base.Strings.{trim}
use trueform.Kernel.{SelectionKind, face, edge, solid, surface}
use trueform.Graph.References.{
  after_prefix, cut_at, Cut, is_empty_text, is_line_end, is_separator, is_number_body, kind_body,
  split_runs, collect_names, normalize_selection_reference_token,
}

pub record KindBody : Type 0 where
  pub kind : SelectionKind
  pub body : Str

abbrev with_kind : SelectionKind → Option Str → Option KindBody → Option KindBody
with_kind kind none later = later
with_kind kind (some body) later = some (record { kind = kind; body = body })

-- The groups of /^(edge|face|solid|surface):(.*)/i, the first in lower case.
unfoldable pub kind_and_body : Str → Option KindBody
kind_and_body s = with_kind edge (after_prefix (codes "edge:") s) (
    with_kind face (after_prefix (codes "face:") s) (
      with_kind solid (after_prefix (codes "solid:") s)
        (with_kind surface (after_prefix (codes "surface:") s) none)))

pub record StableSelectionRef : Type 0 where
  pub kind : SelectionKind
  pub owner_token : Str
  pub created_by_token : Str
  pub slot : Str

-- The same text as in src/graph.ts.
unfoldable pub normalize_selection_token : Str → Str
unfolding normalize_selection_reference_token
normalize_selection_token value = normalize_selection_reference_token value

-- The tokens, where none is empty.
abbrev stable_ref : SelectionKind → Str → Str → Str → Option StableSelectionRef
stable_ref kind owner creator slot =
    if is_empty_text owner || is_empty_text creator || is_empty_text slot
    then none
    else some (record { kind = kind; owner_token = owner; created_by_token = creator; slot = slot })

abbrev at_dot : SelectionKind → Str → Option Cut → Option StableSelectionRef
at_dot kind owner none = none
at_dot kind owner (some k) =
    if is_empty_text k.before
    then none
    else stable_ref kind (normalize_selection_token owner) (normalize_selection_token k.before)
        (trim k.after)

abbrev at_tilde : SelectionKind → Option Cut → Option StableSelectionRef
at_tilde kind none = none
at_tilde kind (some k) =
    if is_empty_text k.before then none else at_dot kind k.before (cut_at 46 k.after)

abbrev of_kind_body : Option KindBody → Option StableSelectionRef
of_kind_body none = none
of_kind_body (some r) =
    if any_of is_line_end r.body then none else at_tilde r.kind (cut_at 126 r.body)

-- An empty body has no `~`.
unfoldable pub parse_stable_selection_ref : Str → Option StableSelectionRef
unfolding kind_and_body normalize_selection_token trim
parse_stable_selection_ref value = of_kind_body (kind_and_body (trim value))

unfoldable pub parse_named_target_list : Str → List Str
unfolding collect_names split_runs
parse_named_target_list name =
    if any_of is_separator name then collect_names [] (split_runs name) else name ∷ []

-- Whether `legacyNumericSelectorError` returns an error.
unfoldable pub is_legacy_numeric_selector : Str → Bool
unfolding kind_body
is_legacy_numeric_selector name = is_number_body (kind_body name)

stable_edge :
    parse_stable_selection_ref (codes "EDGE:body main~union-1.side.1.bound.top")
    ≡ some (record {
      kind = edge;
      owner_token = codes "body.main";
      created_by_token = codes "union-1";
      slot = codes "side.1.bound.top";
    })
unfolding parse_stable_selection_ref
stable_edge = refl
