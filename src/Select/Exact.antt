-- ===== src/Select/Exact.antt =====
-- src/selectors.ts: a reference whose slot is still there is bound to the selection that has it.
use Prim.Native.Nat.{Ordering}
use mathlib.Core.List.{Memᴰ}
use trueform.Base.{ℕ, ◌≡◌, refl, ap, ◌∙◌, false, some, List, [], ◌∷◌, map, arith, count_if}
use trueform.Base.Text.{Str, ◌==◌, ==_iff}
use trueform.Graph.References.{is_empty_text}
use trueform.Select.Context.{Selection}
use trueform.Select.Slots.{ParsedSelectionSlot}
use trueform.Select.Names.{StableSelectionRef}
use trueform.Select.Scores.{score_stable_selection_rebind}
use trueform.Select.Picking.{Scored, pick_stable_selection_rebind_candidate}
use trueform.Select.Unique.{rivals}
use trueform.Select.Pick.{picks_the_unrivalled}
use trueform.Select.Bounds.{slot_of, score_bounds}

module _ {N : Type 0} (r : StableSelectionRef) (slot : ParsedSelectionSlot) where
  abbrev scored : Selection N → Scored N
  scored s = record { selection = s; score = score_stable_selection_rebind r slot s }

  -- How many selections have the slot of the reference.
  abbrev pub exact_count : List (Selection N) → ℕ
  exact_count ss = count_if (λ s. slot_of s == r.slot) ss

  rivals-exact :
      (ss : List (Selection N))
      → is_empty_text r.slot ≡ false
      → rivals 100 (map scored ss) ≡ exact_count ss
  rivals-exact [] full = refl
  rivals-exact (s ∷ ss) full =
      let (hit, miss) = score_bounds r slot s full in
      ground (arith, ==_iff (slot_of s) r.slot, hit, miss, rivals-exact ss full)

  mem-scored :
      (s : Selection N) (ss : List (Selection N)) → Memᴰ s ss → Memᴰ (scored s) (map scored ss)
  mem-scored s [] m = elim m [ ]
  mem-scored s (x ∷ ss) (Memᴰ.head e) = Memᴰ.head (ap scored e)
  mem-scored s (x ∷ ss) (Memᴰ.tail m) = Memᴰ.tail (mem-scored s ss m)

  -- If exactly one of the candidates has the slot of the reference, it is picked, whatever the
  -- others score.
  pub exact_slot_is_picked :
      (collate : Str → Str → Ordering) (s : Selection N) (ss : List (Selection N))
      → is_empty_text r.slot ≡ false
      → Memᴰ s ss
      → slot_of s ≡ r.slot
      → exact_count ss ≡ 1
      → pick_stable_selection_rebind_candidate collate r slot ss ≡ some s
  unfolding pick_stable_selection_rebind_candidate
  exact_slot_is_picked collate s ss full m same one =
      let top : score_stable_selection_rebind r slot s ≡ 100 =
        (score_bounds r slot s full).0 same in
      (picks_the_unrivalled collate (map scored ss) s).1 (
        scored s,
        mem-scored s ss m,
        refl,
        omega (arith, top),
        ap (λ (n : ℕ). rivals n (map scored ss)) top ∙ rivals-exact ss full ∙ one,
      )
