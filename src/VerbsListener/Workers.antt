-- ===== src/VerbsListener/Workers.antt =====
-- pkg/rdma/verbs_linux_cgo.go: what a step of an accept worker changes
use rdma_demo.Base.{
  ℕ, ◌+◌, ◌<◌, not, ◌&&◌, ◌==◌, ltb, if◌then◌else◌, if-elim, length-append, ◌*◌, ◌≤◌, ◌≡◌, refl,
  Bool, false, Option, none, some, List, [], ◌∷◌, ◌++◌, length, arith,
}
use rdma_demo.VerbsListener.{
  Worker, looping, accepting, ended, holding, Listener, Accepted, accept_error, no_conn, conn,
  accept_worker, all_ended,
}

-- One for the connection that is asked for.
abbrev pub one : ℕ → ℕ → ℕ
one c d = if d == c then 1 else 0

-- How often a connection stands in a list.
abbrev pub count : ℕ → List ℕ → ℕ
count c [] = 0
count c (d ∷ ds) = one c d + count c ds

-- How many workers are at the select with a connection.
abbrev pub held : ℕ → List Worker → ℕ
held c [] = 0
held c (holding d ∷ ws) = one c d + held c ws
held c (w ∷ ws) = held c ws

-- One for a connection that was accepted.
abbrev pub was_accepted : ℕ → ℕ → ℕ
was_accepted c accepted = if ltb c accepted then 1 else 0

pub count-append : (c : ℕ) (l m : List ℕ) → count c (l ++ m) ≡ count c l + count c m
count-append c [] m = omega arith
count-append c (d ∷ l) m = omega (arith, count-append c l m)

pub held-append : (c : ℕ) (l m : List Worker) → held c (l ++ m) ≡ held c l + held c m
held-append c [] m = omega arith
held-append c (looping ∷ l) m = held-append c l m
held-append c (accepting ∷ l) m = held-append c l m
held-append c (ended ∷ l) m = held-append c l m
held-append c (holding d ∷ l) m = omega (arith, held-append c l m)

-- What a step of a worker changes.
pub record Worked (w w' : Worker) (l l' : Listener) : Type 0 where
  pub counts :
      (c : ℕ)
      → count c l'.closed_conns
          + count c l'.accept_out
          + held c (w' ∷ [])
          + was_accepted c l.accepted
        ≡ count c l.closed_conns
          + count c l.accept_out
          + held c (w ∷ [])
          + was_accepted c l'.accepted
  pub delivered : l'.delivered ≡ l.delivered
  pub fits :
      length l.accept_out ≤ l.accept_workers * 4 → length l'.accept_out ≤ l'.accept_workers * 4
  pub finished : l'.finished ≡ l.finished
  pub running : all_ended (w ∷ []) ≡ false

abbrev pub MayWork : Worker → Listener → Option (Worker × Listener) → Type 0
MayWork w l none = Unit
MayWork w l (some (w', l')) = Worked w w' l l'

-- A worker that only looks at whether the listener is open.
looks :
    (w w' : Worker) (l : Listener)
    → ((c : ℕ) → held c (w ∷ []) ≡ held c (w' ∷ []))
    → all_ended (w ∷ []) ≡ false
    → Worked w w' l l
looks w w' l h r = record {
  counts = λ c. omega (arith, h c);
  delivered = refl;
  fits = λ f. f;
  finished = refl;
  running = r;
}

discards :
    (c : ℕ) (l : Listener)
    → Worked (holding c) ended l (record l { closed_conns = l.closed_conns ++ c ∷ [] })
discards c l = record {
  counts = λ d. ground (arith, count-append d l.closed_conns (c ∷ []));
  delivered = refl;
  fits = λ f. f;
  finished = refl;
  running = refl;
}

sends :
    (c : ℕ) (l : Listener)
    → length l.accept_out < l.accept_workers * 4
    → Worked (holding c) looping l (record l { accept_out = l.accept_out ++ c ∷ [] })
sends c l h = record {
  counts = λ d. ground (arith, count-append d l.accept_out (c ∷ []));
  delivered = refl;
  fits = λ f. omega (arith, h, length-append l.accept_out (c ∷ []));
  finished = refl;
  running = refl;
}

pub accept_worker-Worked :
    (a : Accepted) (prefers_done : Bool) (w : Worker) (l : Listener)
    → MayWork w l (accept_worker a prefers_done w l)
unfolding accept_worker
accept_worker-Worked a p ended l = tt
accept_worker-Worked a p looping l =
    if-elim (λ x. Worked looping x l l) l.is_open (λ _. looks looping accepting l (λ c. refl) refl)
      (λ _. looks looping ended l (λ c. refl) refl)
accept_worker-Worked accept_error p accepting l =
    if-elim (λ x. Worked accepting x l l) l.is_open
      (λ _. looks accepting looping l (λ c. refl) refl)
      (λ _. looks accepting ended l (λ c. refl) refl)
accept_worker-Worked no_conn p accepting l = looks accepting looping l (λ c. refl) refl
accept_worker-Worked conn p accepting l = record {
  counts = λ c. ground arith;
  delivered = refl;
  fits = λ f. f;
  finished = refl;
  running = refl;
}
accept_worker-Worked a p (holding c) l =
    if-elim (MayWork (holding c) l) (not l.is_open && p) (λ _. discards c l)
      (λ _.
        if-elim (MayWork (holding c) l) (ltb (length l.accept_out) (l.accept_workers * 4))
          (λ h. sends c l (ground arith))
          (λ _. if-elim (MayWork (holding c) l) l.is_open (λ _. tt) (λ _. discards c l)))
