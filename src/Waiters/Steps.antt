-- ===== src/Waiters/Steps.antt =====
-- The agent queue under any interleaving of its callers: each step is one critical section of
-- internal/store/waiters.go, or one receive on a channel.
use clipbeam_cli.Prelude.{
  ℕ, ◌≡◌, Bool, true, false, ◌||◌, Option, none, some, List, [], ◌∷◌, ◌++◌, ◌==◌,
}
use clipbeam_cli.Waiters.{Fifo, enqueue, recv, take_sent, remove_waiter, unlist, empty_fifo}

unfoldable pub contains : ℕ → List ℕ → Bool
contains ch [] = false
contains ch (w ∷ ws) = w == ch || contains ch ws

abbrev pub to_list {ℓ} : {A : Type ℓ} → Option A → List A
to_list none = []
to_list (some a) = a ∷ []

-- The queue, the receivers that have not returned, those of them that have called removeWaiter, the
-- items put so far and the items returned.
pub record World {ℓ} (A : Type ℓ) : Type ℓ where
  pub fifo : Fifo A
  pub open fifo use *
  pub waiting : List ℕ
  pub leaving : List ℕ
  pub enqueued : List A
  pub returned : List A

module _ {ℓ} {A : Type ℓ} where
  pub data Step : World A → World A → Type ℓ where
    arrive :
        (s : World A) (items : List A)
        → Step s (record s { fifo = enqueue items s.fifo; enqueued = s.enqueued ++ items })
    grab :
        (s : World A) (x : A) (f : Fifo A)
        → recv s.fifo ≡ (some x, f)
        → Step s (record s { fifo = f; returned = s.returned ++ x ∷ [] })
    park :
        (s : World A) (f : Fifo A)
        → recv s.fifo ≡ (none, f)
        → Step s (record s { fifo = f; waiting = s.waiting ++ s.next ∷ [] })
    wake :
        (s : World A) (ch : ℕ) (x : A) (f : Fifo A)
        → contains ch s.waiting ≡ true
        → contains ch s.leaving ≡ false
        → take_sent ch s.fifo ≡ (some x, f)
        → Step s
            (record s { fifo = f; waiting = unlist ch s.waiting; returned = s.returned ++ x ∷ [] })
    -- ctx.Done: the receiver takes itself off the list, and in a later step looks into its buffer.
    leave :
        (s : World A) (ch : ℕ)
        → contains ch s.waiting ≡ true
        → contains ch s.leaving ≡ false
        → Step s (record s { fifo = remove_waiter ch s.fifo; leaving = ch ∷ s.leaving })
    drain :
        (s : World A) (ch : ℕ) (o : Option A) (f : Fifo A)
        → contains ch s.leaving ≡ true
        → take_sent ch s.fifo ≡ (o, f)
        → Step s (record s {
          fifo = f;
          waiting = unlist ch s.waiting;
          leaving = unlist ch s.leaving;
          returned = s.returned ++ to_list o;
        })

  pub data Reach (s : World A) : World A → Type ℓ where
    here : Reach s s
    then_step : {t u : World A} → Reach s t → Step t u → Reach s u

  unfoldable pub start : World A
  unfolding empty_fifo
  start = record { fifo = empty_fifo; waiting = []; leaving = []; enqueued = []; returned = [] }
