-- ===== src/Waiters.antt =====
-- internal/store/waiters.go: the queue of agent items with its parked receivers (agentFIFO), and
-- the receivers that wait for the next saved path (pathWaiters). A channel is its number; `sent`
-- holds what stands in the channels' buffers. The proofs are in the modules below.
pub mod Order
pub mod Steps
mod Channels
mod Leaving
pub mod Sound
mod Taken
pub mod Returns
pub mod Paths
mod Tests
use clipbeam_cli.Prelude.{
  ℕ, zero, suc, ◌+◌, ◌-◌, ◌*◌, ◌/◌, ◌%◌, ◌^◌, ◌≤◌, ◌<◌, ◌≡◌, refl, sym, ap, ◌∙◌, ◌≢◌, ◌↔◌, ◌⊎◌, inl,
  inr, Bool, true, false, not, ◌&&◌, ◌||◌, Option, none, some, List, [], ◌∷◌, ◌++◌, map,
  append_assoc, append-nil, arith, ltb, leb, ◌==◌, if◌then◌else◌, between, ==_iff, lt→ltb, ltb→lt,
  ltb→le, leb→le, leb→lt, le→leb, lt→leb-false, le→ltb-false, All-left, All-right, All-map,
  Bool-cases, Option-cases, length, replicate, take, drop, All, last, get_or, length-append,
  length-take, length-drop, take-append-drop, take-length-append, drop-length-append, All-append,
  All-take, All-drop, Bytes, codes, bytes_eq, bytes_eq_refl, bytes_eq_iff, has_prefix,
  has_prefix-append,
}

pub record Fifo {ℓ} (A : Type ℓ) : Type ℓ where
  pub queue : List A
  pub waiters : List ℕ
  pub sent : List (ℕ × A)
  -- The number that the next `make(chan …)` yields.
  pub next : ℕ

-- `removeWaiter` on the list: the first entry that is the channel.
pub unlist : ℕ → List ℕ → List ℕ
unlist ch [] = []
unlist ch (w ∷ ws) = if w == ch then ws else w ∷ unlist ch ws

module _ {ℓ} {A : Type ℓ} where
  unfoldable pub empty_fifo : Fifo A
  empty_fifo = record { queue = []; waiters = []; sent = []; next = 0 }

  -- The loop of `enqueue`: the first waiter is sent the first item, while there are both.
  pub hand_over : List ℕ → List A → List (ℕ × A) → ℕ → Fifo A
  hand_over [] q s n = record { queue = q; waiters = []; sent = s; next = n }
  hand_over (w ∷ ws) [] s n = record { queue = []; waiters = w ∷ ws; sent = s; next = n }
  hand_over (w ∷ ws) (x ∷ q) s n = hand_over ws q (s ++ (w, x) ∷ []) n

  unfoldable pub enqueue : List A → Fifo A → Fifo A
  unfolding hand_over
  enqueue items f = hand_over f.waiters (f.queue ++ items) f.sent f.next

  -- `recv` up to its `select`: the first item, or a new channel that is parked.
  recv_on : List A → Fifo A → Option A × Fifo A
  recv_on (x ∷ q) f = (some x, record f { queue = q })
  recv_on [] f = (none, record f { waiters = f.waiters ++ f.next ∷ []; next = f.next + 1 })

  pub recv : Fifo A → Option A × Fifo A
  unfolding recv_on
  recv f = recv_on f.queue f

  pub remove_waiter : ℕ → Fifo A → Fifo A
  unfolding unlist
  remove_waiter ch f = record f { waiters = unlist ch f.waiters }

  -- A receive on a channel: what stands in its buffer, if anything does.
  pub read : ℕ → List (ℕ × A) → Option A
  read ch [] = none
  read ch ((w, x) ∷ s) = if w == ch then some x else read ch s

  pub unread : ℕ → List (ℕ × A) → List (ℕ × A)
  unread ch [] = []
  unread ch ((w, x) ∷ s) = if w == ch then s else (w, x) ∷ unread ch s

  -- Both `case item := <-ch` of `recv`; the one behind ctx.Done returns nil on an empty buffer.
  pub take_sent : ℕ → Fifo A → Option A × Fifo A
  unfolding read unread
  take_sent ch f = (read ch f.sent, record f { sent = unread ch f.sent })
