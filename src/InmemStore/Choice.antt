-- ===== src/InmemStore/Choice.antt =====
-- internal/inmems3/store/store.go: the scan of ensureCapacityLocked for objects to evict
use rdma_demo.Base.{
  ℕ, ◌+◌, ◌<◌, ◌≡◌, refl, inl, inr, Bool, true, false, none, some, List, [], ◌∷◌, All, arith,
  length, Option-cases, Bool-cases,
}
use rdma_demo.Base.Int.{ℤ, pos, ltb_ℤ, half_range, add64, add64-pos}
use rdma_demo.Base.Text.{Str}
use rdma_demo.InmemStore.State.{Object, Element, MemoryStore, lookup_object_by_id}
use rdma_demo.InmemStore.Evict.{victim_size, choose_victims}
use rdma_demo.InmemStore.Invariant.{DistinctIds}
use rdma_demo.InmemStore.Eviction.{Differs, Victims}

module _ (s : MemoryStore) (current_id : Str) (has_current : Bool) (need_free : ℤ) where
  abbrev choose : List Element → ℤ → ℤ × List Str
  choose = choose_victims s current_id has_current need_free

  -- One round of the scan.
  choose-cases {ℓ} :
      (P : ℤ × List Str → Type ℓ) (e : Element) (es : List Element) (freed : ℤ)
      → (ltb_ℤ freed need_free ≡ false → P (freed, []))
      → (ltb_ℤ freed need_free ≡ true
          → victim_size s current_id has_current e.id ≡ none
          → P (choose es freed))
      → ((n : ℕ)
          → ltb_ℤ freed need_free ≡ true
          → victim_size s current_id has_current e.id ≡ some n
          → P ((choose es (add64 freed (pos n))).0, e.id ∷ (choose es (add64 freed (pos n))).1))
      → P (choose (e ∷ es) freed)
  unfolding choose_victims
  choose-cases P e es freed full skip take_it = elim (Bool-cases (ltb_ℤ freed need_free)) [
    | inr b ↦ rw (b, choose_victims) (full b)
    | inl b ↦ elim (Option-cases (victim_size s current_id has_current e.id)) [
      | inl v ↦ rw (b, choose_victims) (rw v (skip b v))
      | inr (n, v) ↦ rw (b, choose_victims) (rw v (take_it n b v))
    ]
  ]

  -- The ids come from the queue.
  choose-All :
      (P : Str → Type 0) (es : List Element) (freed : ℤ)
      → All (λ e. P e.id) es
      → All P (choose es freed).1
  choose-All P [] freed a = unfold choose_victims in tt
  choose-All P (e ∷ es) freed a =
      choose-cases (λ r. All P r.1) e es freed (λ _. tt) (λ _ _. choose-All P es freed a.1)
        (λ n _ _. (a.0, choose-All P es (add64 freed (pos n)) a.1))

  victim_size-Differs :
      (id : Str) (n : ℕ)
      → victim_size s current_id has_current id ≡ some n
      → has_current ≡ true
      → Differs current_id id
  unfolding victim_size
  victim_size-Differs id n v h = ground arith

  -- The current object is never chosen.
  pub choose-current :
      (es : List Element) (freed : ℤ)
      → has_current ≡ true
      → All (Differs current_id) (choose es freed).1
  choose-current [] freed h = unfold choose_victims in tt
  choose-current (e ∷ es) freed h =
      choose-cases (λ r. All (Differs current_id) r.1) e es freed (λ _. tt)
        (λ _ _. choose-current es freed h)
        (λ n _ v. (victim_size-Differs e.id n v h, choose-current es (add64 freed (pos n)) h))

  victim_size-found :
      (id : Str) (n : ℕ)
      → victim_size s current_id has_current id ≡ some n
      → (obj : Object) × (lookup_object_by_id id s ≡ some obj) × (n ≡ length obj.body)
  unfolding victim_size
  victim_size-found id n v = elim (Option-cases (lookup_object_by_id id s)) [
    | inl e ↦ absurd (ground arith)
    | inr (obj, e) ↦ (obj, e, ground arith)
  ]

  abbrev Counted : ℤ → ℤ × List Str → Type 0
  Counted freed r =
      (n : ℕ) × Victims s r.1 n × ((f : ℕ) → freed ≡ pos f → f + n < half_range → r.0 ≡ pos (f + n))

  Counted-more :
      (id : Str) (n : ℕ) (freed : ℤ) (r : ℤ × List Str)
      → victim_size s current_id has_current id ≡ some n
      → All (Differs id) r.1
      → Counted (add64 freed (pos n)) r
      → Counted freed (r.0, id ∷ r.1)
  Counted-more id n freed r v others (m, victims, count) =
      let (obj, found, size) = victim_size-found id n v in
      (
        n + m,
        (obj, m, found, omega arith, others, victims),
        λ f e h. ground (arith, count (f + n), add64-pos f n),
      )

  -- What is chosen are victims, and `freed` counts their bytes.
  pub choose-Victims :
      (es : List Element) (freed : ℤ) → DistinctIds es → Counted freed (choose es freed)
  choose-Victims [] freed d = unfold choose_victims in (0, refl, λ f e h. ground arith)
  choose-Victims (e ∷ es) freed d =
      choose-cases (Counted freed) e es freed (λ _. (0, refl, λ f e h. ground arith))
        (λ _ _. choose-Victims es freed d.1)
        λ n _ v.
          Counted-more e.id n freed (choose es (add64 freed (pos n))) v
            (choose-All (Differs e.id) es (add64 freed (pos n)) d.0)
            (choose-Victims es (add64 freed (pos n)) d.1)
