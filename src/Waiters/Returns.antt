-- ===== src/Waiters/Returns.antt =====
-- The receivers' steps keep the agent queue sound, and so does every run.
use clipbeam_cli.Prelude.{
  ℕ, ◌≡◌, refl, sym, ap, ◌⊎◌, inl, inr, false, true, ◌<◌, Option, none, some, List, [], ◌∷◌, ◌++◌,
  append-nil, All,
}
use mathlib.Core.List.Perm
use clipbeam_cli.Waiters.{take_sent, remove_waiter, Fifo, read, unread, unlist}
use clipbeam_cli.Waiters.Steps.{
  World, Step, arrive, grab, park, wake, leave, drain, Reach, here, then_step, start, contains,
  to_list,
}
use clipbeam_cli.Waiters.Channels.{
  unlist-append_left, All-unlist, Distinct-unlist, Distinct-left, unlist-append_right,
}
use clipbeam_cli.Waiters.Leaving.{Off, Off-leave, All-contains, All-contains_Off}
use clipbeam_cli.Waiters.Sound.{arrive-IsSound, IsSound, Held, Known, ids}
use clipbeam_cli.Waiters.Taken.{
  Known-return, grab-IsSound, park-IsSound, ids-unread, read-contains, values-unread-none,
  values-unread, move_back,
}

module _ {ℓ} {A : Type ℓ} where
  -- What stays held when the receiver of `ch` has returned.
  Held-return :
      (s : World A) (ch : ℕ)
      → contains ch s.waiters ≡ false
      → Held s.next s.waiting (s.waiters ++ ids s.sent)
      → Held s.next (unlist ch s.waiting) (s.waiters ++ ids (unread ch s.sent))
  Held-return s ch gone (d, k) =
      rw (ids-unread ch s.sent, ← unlist-append_right ch s.waiters (ids s.sent) gone)
        (
          Distinct-unlist ch (s.waiters ++ ids s.sent) d,
          Known-return s.next s.waiting ch (s.waiters ++ ids s.sent) d k,
        )

  module _ (s : World A) (ch : ℕ) (gone : contains ch s.waiters ≡ false) (rest : List ℕ)
      (off : All (Off s.next s.waiters) rest) where
    taken-IsSound :
        (x : A) (f : Fifo A)
        → take_sent ch s.fifo ≡ (some x, f)
        → IsSound s
        → IsSound (record s {
          fifo = f;
          waiting = unlist ch s.waiting;
          leaving = rest;
          returned = s.returned ++ x ∷ [];
        })
    unfolding take_sent
    taken-IsSound x f e h =
        let r : read ch s.sent ≡ some x = ap (λ (p : Option A × Fifo A). p.0) e in
        let ef : f ≡ record s.fifo { sent = unread ch s.sent } =
          sym (ap (λ (p : Option A × Fifo A). p.1) e) in
        rw ef (record {
          idle = h.idle;
          held = Held-return s ch gone h.held;
          given = All-unlist (λ w. w < s.next) ch s.waiting h.given;
          left = off;
          kept =
              Perm.trans
                (move_back s.returned x (unread ch s.sent) s.queue (values-unread ch s.sent x r))
                h.kept;
        })

    empty-IsSound :
        (f : Fifo A)
        → take_sent ch s.fifo ≡ (none, f)
        → IsSound s
        → IsSound (record s {
          fifo = f;
          waiting = unlist ch s.waiting;
          leaving = rest;
          returned = s.returned ++ [];
        })
    unfolding take_sent
    empty-IsSound f e h =
        let r : read ch s.sent ≡ none = ap (λ (p : Option A × Fifo A). p.0) e in
        let ef : f ≡ record s.fifo { sent = unread ch s.sent } =
          sym (ap (λ (p : Option A × Fifo A). p.1) e) in
        rw ef (record {
          idle = h.idle;
          held = Held-return s ch gone h.held;
          given = All-unlist (λ w. w < s.next) ch s.waiting h.given;
          left = off;
          kept = rw (append-nil s.returned, values-unread-none ch s.sent r) h.kept;
        })

  -- A filled buffer is that of a receiver that is not parked any more.
  wake-IsSound :
      (s : World A) (ch : ℕ) (x : A) (f : Fifo A)
      → take_sent ch s.fifo ≡ (some x, f)
      → IsSound s
      → IsSound
          (record s { fifo = f; waiting = unlist ch s.waiting; returned = s.returned ++ x ∷ [] })
  unfolding take_sent
  wake-IsSound s ch x f e h =
      let r : read ch s.sent ≡ some x = ap (λ (p : Option A × Fifo A). p.0) e in
      taken-IsSound s ch
        (Distinct-left ch s.waiters (ids s.sent) h.held.0 (read-contains ch s.sent x r)) s.leaving
        h.left x f e h

  drain-IsSound :
      (s : World A) (ch : ℕ) (o : Option A) (f : Fifo A)
      → contains ch s.leaving ≡ true
      → take_sent ch s.fifo ≡ (o, f)
      → IsSound s
      → IsSound (record s {
        fifo = f;
        waiting = unlist ch s.waiting;
        leaving = unlist ch s.leaving;
        returned = s.returned ++ to_list o;
      })
  drain-IsSound s ch (some x) f c e h =
      taken-IsSound s ch (All-contains_Off s.next ch s.waiters s.leaving h.left c)
        (unlist ch s.leaving) (All-unlist (Off s.next s.waiters) ch s.leaving h.left) x f e h
  drain-IsSound s ch none f c e h =
      empty-IsSound s ch (All-contains_Off s.next ch s.waiters s.leaving h.left c)
        (unlist ch s.leaving) (All-unlist (Off s.next s.waiters) ch s.leaving h.left) f e h

  still_idle :
      {q : List A} (ch : ℕ) {ws : List ℕ} → (q ≡ []) ⊎ (ws ≡ []) → (q ≡ []) ⊎ (unlist ch ws ≡ [])
  unfolding unlist
  still_idle ch (inl e) = inl e
  still_idle ch (inr e) = inr (rw e)

  Held-leave :
      (s : World A) (ch : ℕ)
      → Held s.next s.waiting (s.waiters ++ ids s.sent)
      → Held s.next s.waiting (unlist ch s.waiters ++ ids s.sent)
  Held-leave s ch (d, k) = elim (unlist-append_left ch s.waiters (ids s.sent)) [
    | inl e ↦ rw e (d, k)
    | inr e ↦ rw e (
      Distinct-unlist ch (s.waiters ++ ids s.sent) d,
      All-unlist (Known s.next s.waiting) ch (s.waiters ++ ids s.sent) k,
    )
  ]

  leave-IsSound :
      (s : World A) (ch : ℕ)
      → contains ch s.waiting ≡ true
      → IsSound s
      → IsSound (record s { fifo = remove_waiter ch s.fifo; leaving = ch ∷ s.leaving })
  unfolding remove_waiter
  leave-IsSound s ch c h = record {
    idle = still_idle ch h.idle;
    held = Held-leave s ch h.held;
    given = h.given;
    left =
        Off-leave s.next ch s.waiters (ids s.sent) s.leaving
          (All-contains s.next ch s.waiting h.given c) h.held.0 h.left;
    kept = h.kept;
  }

  pub Step-IsSound : {s t : World A} → Step s t → IsSound s → IsSound t
  Step-IsSound (arrive s items) h = arrive-IsSound s items h
  Step-IsSound (grab s x f e) h = grab-IsSound s x f e h
  Step-IsSound (park s f e) h = park-IsSound s f e h
  Step-IsSound (wake s ch x f c stays e) h = wake-IsSound s ch x f e h
  Step-IsSound (leave s ch c stays) h = leave-IsSound s ch c h
  Step-IsSound (drain s ch o f c e) h = drain-IsSound s ch o f c e h

  start-IsSound : IsSound (start {A = A})
  unfolding start
  start-IsSound = record {
    idle = inl refl;
    held = (tt, tt);
    given = tt;
    left = tt;
    kept = Perm.refl [];
  }

  -- Whatever the callers do and however their critical sections interleave: no item waits while a
  -- receiver waits, the receivers that are parked or have been sent an item are different ones that
  -- have not returned, so no buffer is sent two items or abandoned with one, and the items
  -- returned, in the buffers and queued are those put, each exactly as often.
  pub Reach-IsSound : {s : World A} → Reach start s → IsSound s
  Reach-IsSound here = start-IsSound
  Reach-IsSound (then_step r st) = Step-IsSound st (Reach-IsSound r)
