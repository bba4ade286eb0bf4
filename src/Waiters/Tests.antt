-- ===== src/Waiters/Tests.antt =====
-- The agent queue and the path waiters at concrete runs.
use clipbeam_cli.Prelude.{ℕ, ◌≡◌, refl, none, some, [], ◌∷◌, ◌++◌, length, drop, Bytes, codes}
use clipbeam_cli.Waiters.{Fifo, enqueue, recv, read}
use mathlib.Core.List.{zip}
use clipbeam_cli.Waiters.Order.{enqueue-zip}
use clipbeam_cli.Waiters.Steps.{World, arrive, park, Reach, here, then_step, start}
use clipbeam_cli.Waiters.Sound.{IsSound}
use clipbeam_cli.Waiters.Returns.{Reach-IsSound}
use clipbeam_cli.Waiters.Paths.{PathWaiters, resume, take_path, take_path-resume}

abbrev parked : Fifo ℕ
parked = record { queue = []; waiters = 0 ∷ []; sent = []; next = 1 }

abbrev one_parked : World ℕ
one_parked = record { fifo = parked; waiting = 0 ∷ []; leaving = []; enqueued = []; returned = [] }

abbrev one_sent : World ℕ
one_sent = record {
  fifo = record { queue = 9 ∷ []; waiters = []; sent = (0, 8) ∷ []; next = 1 };
  waiting = 0 ∷ [];
  leaving = [];
  enqueued = 8 ∷ (9 ∷ []);
  returned = [];
}

-- A receiver parks, and two items arrive.
run : Reach start one_sent
unfolding start enqueue recv
run = then_step (then_step here (park start parked refl)) (arrive one_parked (8 ∷ (9 ∷ [])))

Reach-IsSound_example : IsSound one_sent
Reach-IsSound_example = Reach-IsSound run

enqueue-zip_example : enqueue (8 ∷ (9 ∷ [])) parked ≡ record parked {
  queue = drop (length parked.waiters) (parked.queue ++ 8 ∷ (9 ∷ []));
  waiters = drop (length (parked.queue ++ 8 ∷ (9 ∷ []))) parked.waiters;
  sent = parked.sent ++ zip parked.waiters (parked.queue ++ 8 ∷ (9 ∷ []));
}
enqueue-zip_example = enqueue-zip (8 ∷ (9 ∷ [])) parked

abbrev two_waiting : PathWaiters
two_waiting = record { waiters = 3 ∷ (4 ∷ []); sent = []; next = 5 }

nothing_yet : read {A = Bytes} 4 [] ≡ none
unfolding read
nothing_yet = refl

take_path-resume_example :
    ((take_path 4 (resume (codes "/save/a.png") two_waiting)).0 ≡ some (codes "/save/a.png"))
    × ((resume (codes "/save/a.png") two_waiting).waiters ≡ [])
take_path-resume_example =
    take_path-resume (codes "/save/a.png") two_waiting (3 ∷ []) [] 4 refl nothing_yet
