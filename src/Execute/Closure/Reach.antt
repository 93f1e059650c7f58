-- ===== src/Execute/Closure/Reach.antt =====
-- src/executor.ts: `downstreamClosure` computes reachability.
use trueform.Base.{
  ℕ, zero, suc, ◌+◌, ◌≤◌, ◌≡◌, refl, sym, true, false, not, ◌||◌, ◌&&◌, List, [], ◌∷◌, ◌++◌, foldl,
  keep_if, length, length-append, length-keep_if, if◌then◌else◌, Bool-cases, inl, inr, arith,
  append-nil, append_assoc, subst, ◌↔◌,
}
use trueform.Base.Text.{Str, ◌==◌, ==_iff}
use trueform.Base.JsMap.{JsMap, get, put, get-put, has, add, has-add, has-append}
use trueform.Graph.Topo.{Edge, Graph, targets_or_nil}
use trueform.Graph.Topo.Counts.{targets}
use trueform.Execute.Closure.{adjacency, is_empty, expand, downstream_closure}

abbrev next_of : JsMap (List Str) → Str → List Str
next_of m id = targets_or_nil (get id m)

get-adjacency_edges :
    (id : Str) (es : List Edge) (m : JsMap (List Str))
    → next_of
        (foldl (λ m (e : Edge). put e.from (targets_or_nil (get e.from m) ++ e.to ∷ []) m) m es)
        id
      ≡ next_of m id ++ targets id es
unfolding targets
get-adjacency_edges id [] m = sym (append-nil _)
get-adjacency_edges id (e ∷ es) m =
    let m' = put e.from (next_of m e.from ++ e.to ∷ []) m in
    let put_lem = get-put e.from id (next_of m e.from ++ e.to ∷ []) m in
    elim (Bool-cases (e.from == id)) [
      | inl same ↦
          let at : next_of m' id ≡ next_of m id ++ e.to ∷ [] =
            ground (arith, put_lem, ==_iff e.from id) in
          rw (same, get-adjacency_edges id es m', at, append_assoc)
      | inr other ↦
          let at : next_of m' id ≡ next_of m id = ground (arith, put_lem) in
          rw (other, get-adjacency_edges id es m', at)
    ]

next-adjacency : (es : List Edge) (id : Str) → next_of (adjacency es) id ≡ targets id es
unfolding adjacency get
next-adjacency es id = get-adjacency_edges id es []

-- The edges whose source has not been expanded.
pending : List Str → List Edge → ℕ
pending out [] = 0
pending out (e ∷ es) = let rest = pending out es in if has e.from out then rest else suc rest

pending-add :
    (out : List Str) (id : Str) (es : List Edge)
    → has id out ≡ false
    → pending (add id out) es + length (targets id es) ≡ pending out es
unfolding pending targets
pending-add out id [] h = omega arith
pending-add out id (e ∷ es) h =
    ground
      (arith, pending-add out id es h, has-add id e.from out, ==_iff id e.from, ==_iff e.from id)

pending-nil : (es : List Edge) → pending [] es ≡ length es
unfolding pending has
pending-nil [] = refl
pending-nil (e ∷ es) = ground (arith, pending-nil es)

has-keep_new :
    (t : Str) (out xs : List Str)
    → has t (keep_if (λ child. not (has child out)) xs) ≡ (has t xs && not (has t out))
unfolding has
has-keep_new t out [] = refl
has-keep_new t out (x ∷ xs) = ground (arith, has-keep_new t out xs, ==_iff x t)

-- One id of the queue: passed over, or expanded.
expand_skip :
    (fuel : ℕ) (m : JsMap (List Str)) (out queue : List Str) (id : Str)
    → (is_empty id || has id out) ≡ true
    → expand (suc fuel) m out (id ∷ queue) ≡ expand fuel m out queue
unfolding expand
expand_skip fuel m out queue id h = rw (h, expand)

abbrev news : JsMap (List Str) → Str → List Str → List Str
news m id out = keep_if (λ child. not (has child (add id out))) (next_of m id)

expand_take :
    (fuel : ℕ) (m : JsMap (List Str)) (out queue : List Str) (id : Str)
    → (is_empty id || has id out) ≡ false
    → expand (suc fuel) m out (id ∷ queue) ≡ expand fuel m (add id out) (queue ++ news m id out)
unfolding expand
expand_take fuel m out queue id h = rw (h, expand)

-- An id that is reached from `changed` along edges; an empty id is passed over.
pub data Reachable (changed : List Str) (es : List Edge) : Str → Type 0 where
  seed : (id : Str) → has id changed ≡ true → is_empty id ≡ false → Reachable changed es id
  along :
      {from : Str} (to : Str)
      → Reachable changed es from
      → has to (targets from es) ≡ true
      → is_empty to ≡ false
      → Reachable changed es to

module _ (changed : List Str) (es : List Edge) where
  record Inv (out queue : List Str) : Type 0 where
    seeds :
        (id : Str)
        → has id changed ≡ true
        → is_empty id ≡ false
        → (has id out || has id queue) ≡ true
    closed :
        (f t : Str)
        → has f out ≡ true
        → has t (targets f es) ≡ true
        → is_empty t ≡ false
        → (has t out || has t queue) ≡ true
    sound : (t : Str) → has t out ≡ true → Reachable changed es t
    sound_queue : (t : Str) → has t queue ≡ true → is_empty t ≡ false → Reachable changed es t

  Inv-skip :
      (out queue : List Str) (id : Str)
      → (is_empty id || has id out) ≡ true
      → Inv out (id ∷ queue)
      → Inv out queue
  unfolding has
  Inv-skip out queue id h i = record {
    seeds = λ x c n. ground (arith, i.seeds x c n, ==_iff id x);
    closed = λ f t o e n. ground (arith, i.closed f t o e n, ==_iff id t);
    sound = i.sound;
    sound_queue = λ t q n. i.sound_queue t (ground (arith, ==_iff id t)) n;
  }

  Inv-take :
      (out queue : List Str) (id : Str)
      → (is_empty id || has id out) ≡ false
      → Inv out (id ∷ queue)
      → Inv (add id out) (queue ++ news (adjacency es) id out)
  unfolding has
  Inv-take out queue id h i =
      let next = targets id es in
      let id_reached : Reachable changed es id =
        i.sound_queue id (ground (arith, ==_iff id id)) (ground arith) in
      rw next-adjacency (record {
        seeds = λ x c n. ground (
          arith,
          i.seeds x c n,
          ==_iff id x,
          has-add id x out,
          has-append x queue (keep_if (λ child. not (has child (add id out))) next),
        );
        closed = λ f t o e n. ground (
          arith,
          i.closed f t,
          ==_iff id f,
          ==_iff id t,
          has-add id f out,
          has-add id t out,
          has-append t queue (keep_if (λ child. not (has child (add id out))) next),
          has-keep_new t (add id out) next,
        );
        sound = λ t o. elim (Bool-cases (id == t)) [
          | inl same ↦ subst (Reachable changed es) ((==_iff id t).0 same) id_reached
          | inr other ↦ i.sound t (ground (arith, has-add id t out))
        ];
        sound_queue = λ t q n. elim (Bool-cases (has t queue)) [
          | inl old ↦ i.sound_queue t (ground (arith, ==_iff id t)) n
          | inr new ↦
              along t id_reached
                (ground (
                  arith,
                  has-append t queue (keep_if (λ child. not (has child (add id out))) next),
                  has-keep_new t (add id out) next,
                ))
                n
        ];
      })

  -- With fuel for the queue and for the edges that are left, the worklist runs empty.
  expand-Inv :
      (fuel : ℕ) (out queue : List Str)
      → length queue + pending out es ≤ fuel
      → Inv out queue
      → Inv (expand fuel (adjacency es) out queue) []
  expand-Inv zero out [] h i = unfold expand in i
  expand-Inv zero out (id ∷ queue) h i = absurd (omega arith)
  expand-Inv (suc fuel) out [] h i = unfold expand in i
  expand-Inv (suc fuel) out (id ∷ queue) h i = elim (Bool-cases (is_empty id || has id out)) [
    | inl skip ↦
        rw (expand_skip fuel (adjacency es) out queue id skip)
          (expand-Inv fuel out queue (omega arith) (Inv-skip out queue id skip i))
    | inr take ↦
        let size : length (news (adjacency es) id out) ≤ length (targets id es) =
          rw next-adjacency (length-keep_if _ (targets id es)) in
        let left = pending-add out id es (ground arith) in
        rw (expand_take fuel (adjacency es) out queue id take) (
          expand-Inv fuel (add id out) (queue ++ news (adjacency es) id out)
            (omega (arith, size, left, length-append queue (news (adjacency es) id out)))
            (Inv-take out queue id take i))
  ]

  complete : {out : List Str} {t : Str} → Inv out [] → Reachable changed es t → has t out ≡ true
  unfolding has
  complete i (seed id c n) = ground (arith, i.seeds id c n)
  complete i (along {from = f} t r e n) = ground (arith, i.closed f t (complete i r) e n)

-- `downstreamClosure` holds exactly the ids that are reached from the changed ones along the edges
-- of the graph, cycles included; empty ids are passed over.
pub downstream_closure_iff :
    (changed : List Str) (g : Graph) (t : Str)
    → (has t (downstream_closure changed g) ≡ true) ↔ Reachable changed g.edges t
unfolding downstream_closure
downstream_closure_iff changed g t = (end.sound t, complete changed g.edges end)
  where
    end :
        Inv changed g.edges
          (expand (length changed + length g.edges) (adjacency g.edges) [] changed)
          []
    end = expand-Inv changed g.edges _ [] changed (omega (arith, pending-nil g.edges)) (
        unfold has in
        record {
          seeds = λ id c n. c;
          closed = λ f t o e n. cc;
          sound = λ t o. cc;
          sound_queue = λ t q n. seed t q n;
        })
