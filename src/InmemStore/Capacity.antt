-- ===== src/InmemStore/Capacity.antt =====
-- internal/inmems3/store/store.go: what a successful ensureCapacityLocked leaves
use rdma_demo.Base.{
  ℕ, zero, suc, ◌+◌, ◌-◌, ◌≤◌, ◌<◌, ◌≡◌, refl, ◌⊎◌, inl, inr, Bool, true, false, List, [], All,
  arith, Bool-cases, ap, if◌then◌else◌,
}
use rdma_demo.Base.Int.{
  ℤ, pos, negsuc, pos_part, ltb_ℤ, ◌<ℤ◌, leb_ℤ, half_range, add64, add64-pos, sub64, sub64-pos,
}
use rdma_demo.Base.Text.{Str}
use rdma_demo.InmemStore.State.{EvictPolicy, reject, fifo, other, MemoryStore, ok}
use rdma_demo.InmemStore.Evict.{
  choose_victims, evict_all, evict_chosen, make_room, check_limit, ensure_capacity,
}
use rdma_demo.InmemStore.Invariant.{IsValid, total_bytes}
use rdma_demo.InmemStore.Eviction.{Differs, Victims, evict_all-Victims}
use rdma_demo.InmemStore.Choice.{choose-current, choose-Victims}

-- The evictions were needed: there is a limit, the new bytes would go beyond it, and the policy says
-- to evict the objects that the scan chose.
abbrev pub Forced : MemoryStore → Str → Bool → ℕ → ℕ → List Str → Type 0
Forced s current_id has_current old new ids =
    (s.evict_policy ≡ fifo)
    × (pos 0 <ℤ s.max_bytes)
    × (pos_part s.max_bytes < total_bytes s.buckets - old + new)
    × (ids
        ≡ (choose_victims s current_id has_current
            (sub64 (pos (total_bytes s.buckets - old + new)) s.max_bytes) s.fifo_order (pos 0)).1)

-- The store after the evictions has room for `new` bytes in place of `old` ones, and the current
-- object, if there is one, is still there.
pub record MadeRoom (s : MemoryStore) (current_id : Str) (has_current : Bool) (old new : ℕ)
    (s' : MemoryStore) : Type 0 where
  pub ids : List Str
  pub evicted : s' ≡ evict_all ids s
  pub cause : (ids ≡ []) ⊎ Forced s current_id has_current old new ids
  pub freed : ℕ
  pub victims : Victims s ids freed
  pub spared : has_current ≡ true → All (Differs current_id) ids
  pub fits : 0 < pos_part s.max_bytes → total_bytes s'.buckets + new ≤ pos_part s.max_bytes + old

evict_chosen-ok :
    (s : MemoryStore) (need new_size used : ℤ) (c : ℤ × List Str) (s' : MemoryStore)
    → evict_chosen s need new_size used c ≡ ok s'
    → (s' ≡ evict_all c.1 s) × (ltb_ℤ c.0 need ≡ false)
unfolding evict_chosen
evict_chosen-ok s need new_size used (freed, ids) s' h = ground arith

-- Enough was freed: what is left and the new bytes fit into the limit `m`.
room_fits :
    (t t' n m old new : ℕ) (freed need : ℤ)
    → need ≡ sub64 (pos (t - old + new)) (pos m)
    → freed ≡ pos n
    → ltb_ℤ freed need ≡ false
    → t' + n ≡ t
    → old ≤ t
    → t + new < half_range
    → m < t - old + new
    → t' + new ≤ m + old
room_fits t t' n m old new freed need e f enough sum le small over =
    ground (arith, sub64-pos (t - old + new) m)

module _ (s : MemoryStore) (current_id : Str) (has_current : Bool) (old new : ℕ) (s' : MemoryStore)
    (v : IsValid s) (small : total_bytes s.buckets + new < half_range)
    (old_le : old ≤ total_bytes s.buckets) where
  abbrev target : ℕ
  target = total_bytes s.buckets - old + new

  make_room-MadeRoom :
      (policy : EvictPolicy) (used : ℤ) (m : ℕ)
      → s.evict_policy ≡ policy
      → s.max_bytes ≡ pos m
      → 0 < m
      → m < target
      → make_room policy current_id has_current used (pos target) (pos new) s ≡ ok s'
      → MadeRoom s current_id has_current old new s'
  unfolding make_room
  make_room-MadeRoom reject used m p e limited over h = cc
  make_room-MadeRoom (other name) used m p e limited over h = cc
  make_room-MadeRoom fifo used m p e limited over h =
      let need : ℤ = sub64 (pos target) s.max_bytes in
      let chosen = choose_victims s current_id has_current need s.fifo_order (pos 0) in
      let (done, enough) = evict_chosen-ok s need (pos new) used chosen s' h in
      let (n, victims, count) =
        choose-Victims s current_id has_current need s.fifo_order (pos 0) v.linked.distinct_ids in
      let (v', sum, _) = evict_all-Victims chosen.1 s n v (omega arith) victims in
      record {
        ids = chosen.1;
        evicted = done;
        cause = inr (p, ground arith, ground arith, refl);
        freed = n;
        victims = victims;
        spared = choose-current s current_id has_current need s.fifo_order (pos 0);
        fits = λ _. rw (ap pos_part e) (
            room_fits (total_bytes s.buckets) (total_bytes s'.buckets) n m old new chosen.0 need
              (ap (sub64 (pos target)) e) (ground (arith, count 0)) enough (ground arith) old_le
              small over);
      }

  as_it_was :
      (0 < pos_part s.max_bytes → target ≤ pos_part s.max_bytes)
      → s' ≡ s
      → MadeRoom s current_id has_current old new s'
  as_it_was fit e = record {
    ids = [];
    evicted = unfold evict_all in e;
    cause = inl refl;
    freed = 0;
    victims = refl;
    spared = λ _. tt;
    fits = λ p. ground (arith, fit p);
  }

  effective :
      (has_current ≡ false → old ≡ 0)
      → (if has_current then sub64 s.used_bytes (pos old) else s.used_bytes)
        ≡ pos (total_bytes s.buckets - old)
  effective none_old = ground (arith, v.counted, sub64-pos (total_bytes s.buckets) old)

  check_limit-MadeRoom :
      (used : ℤ)
      → check_limit current_id has_current used (pos target) (pos new) s ≡ ok s'
      → (m : ℤ) → s.max_bytes ≡ m
      → MadeRoom s current_id has_current old new s'
  unfolding check_limit
  check_limit-MadeRoom used h (negsuc m) e = as_it_was (ground arith) (ground arith)
  check_limit-MadeRoom used h (pos zero) e = as_it_was (ground arith) (ground arith)
  check_limit-MadeRoom used h (pos (suc m)) e =
      elim (Bool-cases (leb_ℤ (pos target) (pos (suc m)))) [
        | inl fit ↦ as_it_was (ground arith) (ground arith)
        | inr over ↦
            make_room-MadeRoom s.evict_policy used (suc m) refl e (omega arith) (ground arith)
              (ground arith)
      ]

  -- A success means room, whatever the policy.
  pub ensure_capacity-MadeRoom :
      (has_current ≡ false → old ≡ 0)
      → ensure_capacity current_id has_current (pos old) (pos new) s ≡ ok s'
      → MadeRoom s current_id has_current old new s'
  unfolding ensure_capacity
  ensure_capacity-MadeRoom none_old h =
      let sum : add64 (pos (total_bytes s.buckets - old)) (pos new) ≡ pos target =
        add64-pos (total_bytes s.buckets - old) new (omega arith) in
      check_limit-MadeRoom (pos (total_bytes s.buckets - old))
        (rw sum at (rw (effective none_old) at h)) s.max_bytes refl
