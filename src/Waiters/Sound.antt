-- ===== src/Waiters/Sound.antt =====
-- What holds of the agent queue in every state that its callers can reach.
use clipbeam_cli.Prelude.{
  ℕ, ◌<◌, ◌≡◌, refl, ap, ◌∙◌, ◌⊎◌, inl, inr, true, List, [], ◌∷◌, ◌++◌, append_assoc, All,
  All-append,
}
use mathlib.Core.List.{Perm}
use mathlib.Core.List.Perm
use clipbeam_cli.Waiters.{enqueue, hand_over}
use clipbeam_cli.Waiters.Steps.{World, contains}
use clipbeam_cli.Waiters.Channels.{Distinct, Distinct-snoc}
use clipbeam_cli.Waiters.Leaving.{Off, Off-hand_over}

abbrev pub Known : ℕ → List ℕ → ℕ → Type 0
Known next waiting w = (w < next) × (contains w waiting ≡ true)

abbrev pub Held : ℕ → List ℕ → List ℕ → Type 0
Held next waiting ws = Distinct ws × All (Known next waiting) ws

module _ {ℓ} {A : Type ℓ} where
  abbrev pub ids : List (ℕ × A) → List ℕ
  ids [] = []
  ids ((w, x) ∷ s) = w ∷ ids s

  abbrev pub values : List (ℕ × A) → List A
  values [] = []
  values ((w, x) ∷ s) = x ∷ values s

  -- No item waits while a receiver waits; the parked receivers and the filled buffers are of
  -- different receivers that have not returned; one that has called removeWaiter is not parked; and
  -- what was returned, what stands in buffers and
  -- what is queued is what was put, each item as often.
  pub record IsSound (s : World A) : Type ℓ where
    pub idle : (s.queue ≡ []) ⊎ (s.waiters ≡ [])
    pub held : Held s.next s.waiting (s.waiters ++ ids s.sent)
    pub given : All (λ w. w < s.next) s.waiting
    pub left : All (Off s.next s.waiters) s.leaving
    pub kept : Perm (s.returned ++ (values s.sent ++ s.queue)) s.enqueued

  ids-snoc : (s : List (ℕ × A)) (w : ℕ) (x : A) → ids (s ++ (w, x) ∷ []) ≡ ids s ++ w ∷ []
  ids-snoc [] w x = refl
  ids-snoc ((v, y) ∷ s) w x = ap (λ (t : List ℕ). v ∷ t) (ids-snoc s w x)

  values-snoc :
      (s : List (ℕ × A)) (w : ℕ) (x : A) (q : List A)
      → values (s ++ (w, x) ∷ []) ++ q ≡ values s ++ x ∷ q
  values-snoc [] w x q = refl
  values-snoc ((v, y) ∷ s) w x q = ap (λ (t : List A). y ∷ t) (values-snoc s w x q)

  hand_over-Held :
      (ws : List ℕ) (q : List A) (s : List (ℕ × A)) (n m : ℕ) (waiting : List ℕ)
      → Held m waiting (ws ++ ids s)
      → Held m waiting ((hand_over ws q s n).waiters ++ ids (hand_over ws q s n).sent)
  unfolding hand_over
  hand_over-Held [] q s n m waiting h = h
  hand_over-Held (w ∷ ws) [] s n m waiting h = h
  hand_over-Held (w ∷ ws) (x ∷ q) s n m waiting ((hw, d), (kw, k)) =
      hand_over-Held ws q (s ++ (w, x) ∷ []) n m waiting (
        rw (ids-snoc s w x, ← append_assoc ws (ids s) (w ∷ []))
          (
            Distinct-snoc (ws ++ ids s) w hw d,
            All-append (Known m waiting) (ws ++ ids s) (w ∷ []) k (kw, tt),
          ))

  hand_over-values :
      (ws : List ℕ) (q : List A) (s : List (ℕ × A)) (n : ℕ)
      → values (hand_over ws q s n).sent ++ (hand_over ws q s n).queue ≡ values s ++ q
  unfolding hand_over
  hand_over-values [] q s n = refl
  hand_over-values (w ∷ ws) [] s n = refl
  hand_over-values (w ∷ ws) (x ∷ q) s n =
      hand_over-values ws q (s ++ (w, x) ∷ []) n ∙ values-snoc s w x q

  hand_over-idle :
      (ws : List ℕ) (q : List A) (s : List (ℕ × A)) (n : ℕ)
      → ((hand_over ws q s n).queue ≡ []) ⊎ ((hand_over ws q s n).waiters ≡ [])
  unfolding hand_over
  hand_over-idle [] q s n = inr refl
  hand_over-idle (w ∷ ws) [] s n = inl refl
  hand_over-idle (w ∷ ws) (x ∷ q) s n = hand_over-idle ws q (s ++ (w, x) ∷ []) n

  hand_over-next :
      (ws : List ℕ) (q : List A) (s : List (ℕ × A)) (n : ℕ) → (hand_over ws q s n).next ≡ n
  unfolding hand_over
  hand_over-next [] q s n = refl
  hand_over-next (w ∷ ws) [] s n = refl
  hand_over-next (w ∷ ws) (x ∷ q) s n = hand_over-next ws q (s ++ (w, x) ∷ []) n

  pub arrive-IsSound :
      (s : World A) (items : List A)
      → IsSound s
      → IsSound (record s { fifo = enqueue items s.fifo; enqueued = s.enqueued ++ items })
  unfolding enqueue
  arrive-IsSound s items h = record {
    idle = hand_over-idle s.waiters (s.queue ++ items) s.sent s.next;
    held =
        rw (hand_over-next s.waiters (s.queue ++ items) s.sent s.next)
          (hand_over-Held s.waiters (s.queue ++ items) s.sent s.next s.next s.waiting h.held);
    given = rw (hand_over-next s.waiters (s.queue ++ items) s.sent s.next) h.given;
    left =
        rw (hand_over-next s.waiters (s.queue ++ items) s.sent s.next)
          (Off-hand_over s.next s.waiters (s.queue ++ items) s.sent s.next s.leaving h.left);
    kept =
        rw
          (
            hand_over-values s.waiters (s.queue ++ items) s.sent s.next,
            ← append_assoc (values s.sent) s.queue items,
            ← append_assoc s.returned (values s.sent ++ s.queue) items,
          )
          (Perm.append_right items h.kept);
  }
