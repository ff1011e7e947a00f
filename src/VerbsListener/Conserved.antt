-- ===== src/VerbsListener/Conserved.antt =====
-- pkg/rdma/verbs_linux_cgo.go: no connection of a listener is lost or doubled, in any interleaving of its
-- workers, AcceptMessage and Close
use rdma_demo.Base.{
  ℕ, zero, suc, ◌+◌, not, ◌&&◌, if-elim, subst, ◌*◌, ◌≤◌, ◌≡◌, refl, ap, Bool, true, false, Option,
  none, some, List, [], ◌∷◌, ◌++◌, length, arith,
}
use rdma_demo.VerbsListener.{
  Worker, looping, accepting, ended, holding, Listener, Accepted, start_accept_workers,
  new_listener, accept_worker, AcceptMessage, take_conn, accept_message, begin_close, all_ended,
  end_close,
}
use rdma_demo.VerbsListener.Workers.{
  held, held-append, count, was_accepted, count-append, Worked, MayWork, accept_worker-Worked,
}

pub data Step : Listener → Listener → Type 0 where
  works :
      (l : Listener) (before after : List Worker) (w w' : Worker) (l' : Listener) (a : Accepted)
      (prefers_done : Bool)
      → l.workers ≡ before ++ w ∷ after
      → accept_worker a prefers_done w l ≡ some (w', l')
      → Step l (record l' { workers = before ++ w' ∷ after })
  takes :
      (l l' : Listener) (r : AcceptMessage) (prefers_done : Bool)
      → accept_message prefers_done l ≡ some (r, l')
      → Step l l'
  begins : (l : Listener) → Step l (begin_close l)
  ends : (l l' : Listener) → end_close l ≡ some l' → Step l l'

pub data Reach (s : Listener) : Listener → Type 0 where
  here : Reach s s
  next : {t u : Listener} → Reach s t → Step t u → Reach s u

abbrev EndedOf : Bool → List Worker → Type 0
EndedOf true ws = all_ended ws ≡ true
EndedOf false ws = Unit

-- A connection that was accepted is delivered, closed, in the channel or at a worker's select, in one
-- place and once, and one that was not accepted is nowhere; the channel holds no more than it can, and once
-- the C listener is freed the listener is closed and no worker is left that could use it.
pub record IsSound (l : Listener) : Type 0 where
  pub conserved :
      (c : ℕ)
      → count c l.delivered + count c l.closed_conns + count c l.accept_out + held c l.workers
        ≡ was_accepted c l.accepted
  pub bounded : length l.accept_out ≤ l.accept_workers * 4
  pub unused : EndedOf l.finished l.workers

all_ended-append :
    (before after : List Worker) (w : Worker)
    → all_ended (before ++ w ∷ after) ≡ true
    → all_ended (w ∷ []) ≡ true
all_ended-append [] after ended h = refl
all_ended-append [] after looping h = h
all_ended-append [] after accepting h = h
all_ended-append [] after (holding c) h = h
all_ended-append (ended ∷ before) after w h = all_ended-append before after w h
all_ended-append (looping ∷ before) after w h = absurd (ground arith)
all_ended-append (accepting ∷ before) after w h = absurd (ground arith)
all_ended-append (holding c ∷ before) after w h = absurd (ground arith)

-- No worker of a finished listener can take a step.
still_unused :
    (f : Bool) (before after : List Worker) (w w' : Worker)
    → EndedOf f (before ++ w ∷ after)
    → all_ended (w ∷ []) ≡ false
    → EndedOf f (before ++ w' ∷ after)
still_unused false before after w w' u r = tt
still_unused true before after w w' u r =
    absurd (ground (arith, all_ended-append before after w u, r))

works-IsSound :
    (l l' : Listener) (before after : List Worker) (w w' : Worker)
    → l.workers ≡ before ++ w ∷ after
    → Worked w w' l l'
    → IsSound l
    → IsSound (record l' { workers = before ++ w' ∷ after })
works-IsSound l l' before after w w' e m s = record {
  conserved = λ c. omega (
    arith,
    ap (held c) e,
    held-append c before (w ∷ after),
    held-append c (w ∷ []) after,
    held-append c before (w' ∷ after),
    held-append c (w' ∷ []) after,
    m.counts c,
    ap (count c) m.delivered,
    s.conserved c,
  );
  bounded = m.fits s.bounded;
  unused =
      rw m.finished (
        still_unused l.finished before after w w' (subst (EndedOf l.finished) e s.unused)
          m.running);
}

abbrev SoundAfter : Option (AcceptMessage × Listener) → Type 0
SoundAfter none = Unit
SoundAfter (some (r, l)) = IsSound l

take_conn-IsSound :
    (q : List ℕ) (l : Listener) → l.accept_out ≡ q → IsSound l → SoundAfter (take_conn q l)
unfolding take_conn
take_conn-IsSound [] l e s = if-elim SoundAfter l.is_open (λ _. tt) (λ _. s)
take_conn-IsSound (c ∷ rest) l e s = record {
  conserved =
      λ d. omega (arith, ap (count d) e, count-append d l.delivered (c ∷ []), s.conserved d);
  bounded = omega (arith, ap length e, s.bounded);
  unused = s.unused;
}

accept_message-IsSound :
    (prefers_done : Bool) (l : Listener) → IsSound l → SoundAfter (accept_message prefers_done l)
unfolding accept_message
accept_message-IsSound p l s =
    if-elim SoundAfter (not l.is_open && p) (λ _. s) (λ _. take_conn-IsSound l.accept_out l refl s)

abbrev SoundIfSome : Option Listener → Type 0
SoundIfSome none = Unit
SoundIfSome (some l) = IsSound l

end_close-IsSound : (l : Listener) → IsSound l → SoundIfSome (end_close l)
unfolding end_close
end_close-IsSound l s =
    if-elim SoundIfSome l.is_open (λ _. tt)
      (λ _.
        if-elim SoundIfSome (all_ended l.workers)
          (λ h. record { conserved = s.conserved; bounded = s.bounded; unused = h }) (λ _. tt))

Step-IsSound : {l l' : Listener} → IsSound l → Step l l' → IsSound l'
unfolding begin_close
Step-IsSound {l} s (works _ before after w w' l' a p e h) =
    works-IsSound l l' before after w w' e (subst (MayWork w l) h (accept_worker-Worked a p w l)) s
Step-IsSound {l} s (takes _ l' r p h) = subst SoundAfter h (accept_message-IsSound p l s)
Step-IsSound s (begins _) = record {
  conserved = s.conserved;
  bounded = s.bounded;
  unused = s.unused;
}
Step-IsSound {l} {l'} s (ends _ _ h) = subst SoundIfSome h (end_close-IsSound l s)

start-held : (c n : ℕ) → held c (start_accept_workers n) ≡ 0
unfolding start_accept_workers
start-held c zero = refl
start-held c (suc n) = start-held c n

-- In every interleaving of the workers, AcceptMessage and Close of a new listener, each connection that
-- was accepted stands exactly once in one of four places (delivered, closed, in the channel, at a
-- worker's select) and a connection that was not accepted in none; the channel holds at most four for each worker, and the C listener is freed only when no
-- worker is left that could use it or the channel.
pub Reach-IsSound : (n : ℕ) {l : Listener} → Reach (new_listener n) l → IsSound l
unfolding new_listener
Reach-IsSound n here = record {
  conserved = λ c. ground (arith, start-held c n);
  bounded = omega arith;
  unused = tt;
}
Reach-IsSound n (next r st) = Step-IsSound (Reach-IsSound n r) st
