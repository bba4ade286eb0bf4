-- ===== src/Waiters/Taken.antt =====
-- The steps of the agent queue that take an item at once or park, and what a receive on a channel
-- takes out of the buffers.
use clipbeam_cli.Prelude.{
  ℕ, ◌+◌, ◌≡◌, refl, sym, ap, ◌∙◌, ◌≢◌, ◌⊎◌, inl, inr, true, false, Option, none, some, List, [],
  ◌∷◌, ◌++◌, append_assoc, arith, ◌==◌, All-map, All-append, Bool-cases, All, ◌<◌,
}
use mathlib.Core.List.{Perm, perm_middle}
use mathlib.Core.List.Perm
use mathlib.Core.Path.{subst}
use clipbeam_cli.Waiters.{Fifo, recv, recv_on, read, unread, unlist}
use clipbeam_cli.Waiters.Steps.{World, contains}
use clipbeam_cli.Waiters.Channels.{
  All-unlist, unlist-ne, contains-unlist_ne, Distinct, Distinct-insert, All-insert, contains-append,
  contains-snoc,
}
use clipbeam_cli.Waiters.Leaving.{Off-park}
use clipbeam_cli.Waiters.Sound.{IsSound, Held, Known, ids, values}

Known-later :
    (next : ℕ) (waiting : List ℕ) (w : ℕ)
    → Known next waiting w
    → Known (next + 1) (waiting ++ next ∷ []) w
Known-later next waiting w (lt, k) = (omega arith, contains-append w waiting (next ∷ []) k)

Held-park :
    (next : ℕ) (waiting ws ts : List ℕ)
    → Held next waiting (ws ++ ts)
    → Held (next + 1) (waiting ++ next ∷ []) ((ws ++ next ∷ []) ++ ts)
Held-park next waiting ws ts (d, k) = rw (append_assoc ws (next ∷ []) ts) (
  Distinct-insert ws ts next
      (All-map (λ w (p : Known next waiting w). omega (arith, p.0)) (ws ++ ts) k) d,
  All-insert (Known (next + 1) (waiting ++ next ∷ [])) ws ts next
      (omega arith, contains-snoc next waiting) (All-map (Known-later next waiting) (ws ++ ts) k),
)

All-both :
    (next : ℕ) (waiting : List ℕ) (ch : ℕ) (ws : List ℕ)
    → All (λ v. v ≢ ch) ws
    → All (Known next waiting) ws
    → All (Known next (unlist ch waiting)) ws
All-both next waiting ch [] n k = tt
All-both next waiting ch (w ∷ ws) (nw, n) ((lt, kw), k) =
    ((lt, contains-unlist_ne ch w waiting nw ∙ kw), All-both next waiting ch ws n k)

pub Known-return :
    (next : ℕ) (waiting : List ℕ) (ch : ℕ) (ws : List ℕ)
    → Distinct ws
    → All (Known next waiting) ws
    → All (Known next (unlist ch waiting)) (unlist ch ws)
Known-return next waiting ch ws d k =
    All-both next waiting ch (unlist ch ws) (unlist-ne ch ws d)
      (All-unlist (Known next waiting) ch ws k)

module _ {ℓ} {A : Type ℓ} where
  recv_on-some :
      (q : List A) (f g : Fifo A) (x : A)
      → recv_on q f ≡ (some x, g)
      → (r : List A) × (q ≡ x ∷ r) × (g ≡ record f { queue = r })
  unfolding recv_on
  recv_on-some [] f g x e = cc (ap (λ (p : Option A × Fifo A). p.0) e)
  recv_on-some (y ∷ q) f g x e =
      (q, cc (ap (λ (p : Option A × Fifo A). p.0) e), sym (ap (λ (p : Option A × Fifo A). p.1) e))

  recv_on-none :
      (q : List A) (f g : Fifo A)
      → recv_on q f ≡ (none, g)
      → (q ≡ []) × (g ≡ record f { waiters = f.waiters ++ f.next ∷ []; next = f.next + 1 })
  unfolding recv_on
  recv_on-none [] f g e = (refl, sym (ap (λ (p : Option A × Fifo A). p.1) e))
  recv_on-none (y ∷ q) f g e = cc (ap (λ (p : Option A × Fifo A). p.0) e)

  -- An item that leaves the queue or a buffer for its caller.
  move_out :
      (r v : List A) (x : A) (u : List A) → Perm ((r ++ x ∷ []) ++ (v ++ u)) (r ++ (v ++ x ∷ u))
  move_out r v x u =
      rw (append_assoc r (x ∷ []) (v ++ u)) (Perm.append_left r (Perm.symm (perm_middle v u)))

  idle_cons : {x : A} {q r : List A} {P : Type 0} → q ≡ x ∷ r → (q ≡ []) ⊎ P → P
  idle_cons e (inl n) = cc
  idle_cons e (inr p) = p

  pub grab-IsSound :
      (s : World A) (x : A) (f : Fifo A)
      → recv s.fifo ≡ (some x, f)
      → IsSound s
      → IsSound (record s { fifo = f; returned = s.returned ++ x ∷ [] })
  unfolding recv
  grab-IsSound s x f e h =
      let (r, eq, ef) = recv_on-some s.queue s.fifo f x e in
      rw ef (record {
        idle = inr (idle_cons eq h.idle);
        held = h.held;
        given = h.given;
        left = h.left;
        kept = Perm.trans (move_out s.returned (values s.sent) x r) (
            let k : Perm (s.returned ++ (values s.sent ++ s.queue)) s.enqueued = h.kept in
            rw eq at k);
      })

  pub park-IsSound :
      (s : World A) (f : Fifo A)
      → recv s.fifo ≡ (none, f)
      → IsSound s
      → IsSound (record s { fifo = f; waiting = s.waiting ++ s.next ∷ [] })
  unfolding recv
  park-IsSound s f e h =
      let (eq, ef) = recv_on-none s.queue s.fifo f e in
      rw ef (record {
        idle = inl eq;
        held = Held-park s.next s.waiting s.waiters (ids s.sent) h.held;
        given =
            All-append (λ w. w < s.next + 1) s.waiting (s.next ∷ [])
              (All-map (λ w (lt : w < s.next). omega (arith, lt)) s.waiting h.given)
              (omega arith, tt);
        left = Off-park s.next s.waiters s.leaving h.left;
        kept = h.kept;
      })

  pub ids-unread : (ch : ℕ) (s : List (ℕ × A)) → ids (unread ch s) ≡ unlist ch (ids s)
  unfolding unread unlist
  ids-unread ch [] = refl
  ids-unread ch ((w, x) ∷ s) = ground (arith, ids-unread ch s)

  pub read-contains :
      (ch : ℕ) (s : List (ℕ × A)) (x : A) → read ch s ≡ some x → contains ch (ids s) ≡ true
  unfolding read contains
  read-contains ch [] x e = cc
  read-contains ch ((w, y) ∷ s) x e = ground (arith, read-contains ch s x)

  pub values-unread-none : (ch : ℕ) (s : List (ℕ × A)) → read ch s ≡ none → unread ch s ≡ s
  unfolding read unread
  values-unread-none ch [] e = refl
  values-unread-none ch ((w, y) ∷ s) e = ground (arith, values-unread-none ch s)

  read_here :
      (ch w : ℕ) (x y : A) (s : List (ℕ × A))
      → (w == ch) ≡ true
      → read ch ((w, y) ∷ s) ≡ some x
      → y ≡ x
  unfolding read
  read_here ch w x y s t e = ground arith

  read_there :
      (ch w : ℕ) (x y : A) (s : List (ℕ × A))
      → (w == ch) ≡ false
      → read ch ((w, y) ∷ s) ≡ some x
      → read ch s ≡ some x
  unfolding read
  read_there ch w x y s n e = ground arith

  -- What was read is what is gone from the buffers.
  pub values-unread :
      (ch : ℕ) (s : List (ℕ × A)) (x : A)
      → read ch s ≡ some x
      → Perm (x ∷ values (unread ch s)) (values s)
  unfolding read unread
  values-unread ch [] x e = cc
  values-unread ch ((w, y) ∷ s) x e = elim (Bool-cases (w == ch)) [
    | inl t ↦ rw t (
        subst (λ (z : A). Perm (z ∷ values s) (y ∷ values s)) (read_here ch w x y s t e)
          (Perm.refl (y ∷ values s)))
    | inr n ↦ rw n (
        Perm.trans (Perm.swap y x (values (unread ch s)))
          (Perm.cons y (values-unread ch s x (read_there ch w x y s n e))))
  ]

  pub move_back :
      (r : List A) (x : A) (t : List (ℕ × A)) (q : List A) {v : List A}
      → Perm (x ∷ values t) v
      → Perm ((r ++ x ∷ []) ++ (values t ++ q)) (r ++ (v ++ q))
  move_back r x t q p =
      rw (append_assoc r (x ∷ []) (values t ++ q)) (Perm.append_left r (Perm.append_right q p))
