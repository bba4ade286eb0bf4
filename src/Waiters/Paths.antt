-- ===== src/Waiters/Paths.antt =====
-- The receivers of internal/store/waiters.go that wait for the next saved path (pathWaiters):
-- all of them are sent the path that resumes them.
use clipbeam_cli.Prelude.{
  ℕ, ◌+◌, ◌≡◌, refl, ◌∙◌, inl, inr, true, false, Option, none, some, List, [], ◌∷◌, ◌++◌, arith,
  ◌==◌, ==_iff, Bool-cases, Bytes,
}
use clipbeam_cli.Waiters.{unlist, read, unread}

pub record PathWaiters : Type 0 where
  pub waiters : List ℕ
  pub sent : List (ℕ × Bytes)
  pub next : ℕ

unfoldable pub no_waiters : PathWaiters
no_waiters = record { waiters = []; sent = []; next = 0 }

-- The part of `wait` before its `select`.
unfoldable pub wait : PathWaiters → ℕ × PathWaiters
wait p = (p.next, record p { waiters = p.waiters ++ p.next ∷ []; next = p.next + 1 })

-- The loop over the waiters that were parked.
send_all : Bytes → List ℕ → List (ℕ × Bytes) → List (ℕ × Bytes)
send_all path [] sent = sent
send_all path (w ∷ ws) sent = send_all path ws (sent ++ (w, path) ∷ [])

-- The whole call: the list is taken under the lock, and the sends come after the unlock. A receiver
-- that parks in between is not on the list that was taken; one that is cancelled in between may find
-- its buffer empty yet, which is not modelled.
unfoldable pub resume : Bytes → PathWaiters → PathWaiters
unfolding send_all
resume path p = record p { waiters = []; sent = send_all path p.waiters p.sent }

unfoldable pub remove_path_waiter : ℕ → PathWaiters → PathWaiters
unfolding unlist
remove_path_waiter ch p = record p { waiters = unlist ch p.waiters }

-- A receive on the channel: the first one of the `select`, or the last look behind ctx.Done, where
-- `none` becomes the empty path.
unfoldable pub take_path : ℕ → PathWaiters → Option Bytes × PathWaiters
unfolding read unread
take_path ch p = (read ch p.sent, record p { sent = unread ch p.sent })

read-append : (ch : ℕ) (s t : List (ℕ × Bytes)) → read ch s ≡ none → read ch (s ++ t) ≡ read ch t
unfolding read
read-append ch [] t h = refl
read-append ch ((w, x) ∷ s) t h = ground (arith, read-append ch s t)

read-append_some :
    (ch : ℕ) (s t : List (ℕ × Bytes)) (x : Bytes) → read ch s ≡ some x → read ch (s ++ t) ≡ some x
unfolding read
read-append_some ch [] t x h = cc
read-append_some ch ((w, y) ∷ s) t x h = ground (arith, read-append_some ch s t x)

read_one : (ch w : ℕ) (path : Bytes) → (w == ch) ≡ true → read ch ((w, path) ∷ []) ≡ some path
unfolding read
read_one ch w path y = rw y

read_other : (ch w : ℕ) (path : Bytes) → (w == ch) ≡ false → read ch ((w, path) ∷ []) ≡ none
unfolding read
read_other ch w path n = rw n

send_all-read :
    (path : Bytes) (ch : ℕ) (ws : List ℕ) (sent : List (ℕ × Bytes))
    → read ch sent ≡ some path
    → read ch (send_all path ws sent) ≡ some path
unfolding send_all
send_all-read path ch [] sent h = h
send_all-read path ch (w ∷ ws) sent h =
    send_all-read path ch ws (sent ++ (w, path) ∷ [])
      (read-append_some ch sent ((w, path) ∷ []) path h)

send_all_to :
    (path : Bytes) (before after : List ℕ) (ch : ℕ) (sent : List (ℕ × Bytes))
    → read ch sent ≡ none
    → read ch (send_all path (before ++ ch ∷ after) sent) ≡ some path
unfolding send_all
send_all_to path [] after ch sent h =
    send_all-read path ch after (sent ++ (ch, path) ∷ [])
      (read-append ch sent ((ch, path) ∷ []) h ∙ read_one ch ch path ((==_iff ch ch).1 refl))
send_all_to path (w ∷ before) after ch sent h = elim (Bool-cases (w == ch)) [
  | inl y ↦
      send_all-read path ch (before ++ ch ∷ after) (sent ++ (w, path) ∷ [])
        (read-append ch sent ((w, path) ∷ []) h ∙ read_one ch w path y)
  | inr n ↦
      send_all_to path before after ch (sent ++ (w, path) ∷ [])
        (read-append ch sent ((w, path) ∷ []) h ∙ read_other ch w path n)
]

-- Saving a path resumes every parked receiver whose buffer is empty with that path: its receive
-- yields it, and no receiver is parked any more.
pub take_path-resume :
    (path : Bytes) (p : PathWaiters) (before after : List ℕ) (ch : ℕ)
    → p.waiters ≡ before ++ ch ∷ after
    → read ch p.sent ≡ none
    → ((take_path ch (resume path p)).0 ≡ some path) × ((resume path p).waiters ≡ [])
unfolding take_path resume
take_path-resume path p before after ch e h =
    (rw e (send_all_to path before after ch p.sent h), refl)
