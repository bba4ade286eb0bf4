-- ===== src/Waiters/Leaving.antt =====
-- The receivers of the agent queue that have called removeWaiter: none of them is parked.
use clipbeam_cli.Prelude.{
  ℕ, ◌+◌, ◌<◌, ◌≡◌, refl, inl, inr, true, false, List, [], ◌∷◌, ◌++◌, arith, ◌==◌, All-left,
  All-map, Bool-cases, All,
}
use clipbeam_cli.Waiters.{unlist, hand_over}
use clipbeam_cli.Waiters.Steps.{contains}
use clipbeam_cli.Waiters.Channels.{Distinct, unlist-ne, ne-contains}

-- The number was given out, and is not parked.
abbrev pub Off : ℕ → List ℕ → ℕ → Type 0
Off next ws ch = (ch < next) × (contains ch ws ≡ false)

Distinct-prefix : (ws ts : List ℕ) → Distinct (ws ++ ts) → Distinct ws
Distinct-prefix [] ts d = tt
Distinct-prefix (w ∷ ws) ts (hw, d) = (All-left _ ws ts hw, Distinct-prefix ws ts d)

contains-unlist :
    (w ch : ℕ) (ws : List ℕ) → contains w ws ≡ false → contains w (unlist ch ws) ≡ false
unfolding contains unlist
contains-unlist w ch [] h = refl
contains-unlist w ch (v ∷ ws) h = ground (arith, contains-unlist w ch ws)

contains-snoc_lt :
    (w n : ℕ) (ws : List ℕ) → w < n → contains w ws ≡ false → contains w (ws ++ n ∷ []) ≡ false
unfolding contains
contains-snoc_lt w n [] lt h = ground arith
contains-snoc_lt w n (v ∷ ws) lt h = ground (arith, contains-snoc_lt w n ws lt)

-- The channel of a receiver that has not returned was given out.
pub All-contains : (n ch : ℕ) (ws : List ℕ) → All (λ w. w < n) ws → contains ch ws ≡ true → ch < n
unfolding contains
All-contains n ch [] h c = cc
All-contains n ch (w ∷ ws) (hw, h) c = ground (arith, All-contains n ch ws h)

-- A receiver that has taken itself off the list is not parked, and neither are those before.
pub Off-leave :
    (next ch : ℕ) (ws ts leaving : List ℕ)
    → ch < next
    → Distinct (ws ++ ts)
    → All (Off next ws) leaving
    → All (Off next (unlist ch ws)) (ch ∷ leaving)
Off-leave next ch ws ts leaving lt d h = (
  (lt, ne-contains ch (unlist ch ws) (unlist-ne ch ws (Distinct-prefix ws ts d))),
  All-map (λ w (p : Off next ws w). (p.0, contains-unlist w ch ws p.1)) leaving h,
)

pub Off-park :
    (next : ℕ) (ws leaving : List ℕ)
    → All (Off next ws) leaving
    → All (Off (next + 1) (ws ++ next ∷ [])) leaving
Off-park next ws leaving h =
    All-map (λ w (p : Off next ws w). (omega (arith, p.0), contains-snoc_lt w next ws p.0 p.1))
      leaving h

pub All-contains_Off :
    (next ch : ℕ) (ws leaving : List ℕ)
    → All (Off next ws) leaving
    → contains ch leaving ≡ true
    → contains ch ws ≡ false
unfolding contains
All-contains_Off next ch ws [] h c = cc
All-contains_Off next ch ws (w ∷ leaving) ((lt, hw), h) c = elim (Bool-cases (w == ch)) [
  | inl y ↦ ground (arith, hw)
  | inr n ↦ All-contains_Off next ch ws leaving h (ground (arith, c))
]

module _ {ℓ} {A : Type ℓ} where
  hand_over-contains :
      (w : ℕ) (ws : List ℕ) (q : List A) (s : List (ℕ × A)) (n : ℕ)
      → contains w ws ≡ false
      → contains w (hand_over ws q s n).waiters ≡ false
  unfolding hand_over contains
  hand_over-contains w [] q s n h = refl
  hand_over-contains w (v ∷ ws) [] s n h = h
  hand_over-contains w (v ∷ ws) (x ∷ q) s n h =
      hand_over-contains w ws q (s ++ (v, x) ∷ []) n (ground (arith, h))

  pub Off-hand_over :
      (next : ℕ) (ws : List ℕ) (q : List A) (s : List (ℕ × A)) (n : ℕ) (leaving : List ℕ)
      → All (Off next ws) leaving
      → All (Off next (hand_over ws q s n).waiters) leaving
  Off-hand_over next ws q s n leaving h =
      All-map (λ w (p : Off next ws w). (p.0, hand_over-contains w ws q s n p.1)) leaving h
