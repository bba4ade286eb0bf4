-- ===== src/Waiters/Order.antt =====
-- `enqueue` and `recv` keep the order: the oldest items go to the receivers that wait longest.
use clipbeam_cli.Prelude.{
  ℕ, zero, suc, ◌≡◌, refl, List, [], ◌∷◌, ◌++◌, append_assoc, append-nil, length, drop,
}
use mathlib.Core.List.{zip, zip_with}
use clipbeam_cli.Waiters.{Fifo, enqueue, hand_over}

drop-nil : (n : ℕ) → drop {A = ℕ} n [] ≡ []
drop-nil zero = refl
drop-nil (suc n) = refl

module _ {ℓ} {A : Type ℓ} where
  hand_over-zip :
      (ws : List ℕ) (q : List A) (s : List (ℕ × A)) (n : ℕ)
      → hand_over ws q s n ≡ record {
        queue = drop (length ws) q;
        waiters = drop (length q) ws;
        sent = s ++ zip ws q;
        next = n;
      }
  unfolding hand_over zip zip_with
  hand_over-zip [] q s n = rw (drop-nil (length q), append-nil s)
  hand_over-zip (w ∷ ws) [] s n = rw (append-nil s)
  hand_over-zip (w ∷ ws) (x ∷ q) s n =
      rw (hand_over-zip ws q (s ++ (w, x) ∷ []) n, append_assoc s ((w, x) ∷ []) (zip ws q))

  -- Putting items in the queue hands the oldest of all queued items to the longest waiting
  -- receivers, one each and in order, appended to what the buffers hold; what is left over of
  -- either stays, in its order.
  pub enqueue-zip :
      (items : List A) (f : Fifo A)
      → enqueue items f ≡ record f {
        queue = drop (length f.waiters) (f.queue ++ items);
        waiters = drop (length (f.queue ++ items)) f.waiters;
        sent = f.sent ++ zip f.waiters (f.queue ++ items);
      }
  unfolding enqueue
  enqueue-zip items f = hand_over-zip f.waiters (f.queue ++ items) f.sent f.next
