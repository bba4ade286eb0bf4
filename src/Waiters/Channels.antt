-- ===== src/Waiters/Channels.antt =====
-- Lists of channel numbers: no number twice, and what the removal of one leaves.
use clipbeam_cli.Prelude.{
  ℕ, ◌≡◌, refl, sym, ap, ◌∙◌, ◌≢◌, ◌⊎◌, inl, inr, true, false, List, [], ◌∷◌, ◌++◌, arith, ◌==◌,
  ==_iff, All-map, Bool-cases, All, All-append,
}
use clipbeam_cli.Waiters.{unlist}
use clipbeam_cli.Waiters.Steps.{contains}
use mathlib.Core.Bool.{false≢true}

abbrev pub Distinct : List ℕ → Type 0
Distinct [] = Unit
Distinct (w ∷ ws) = All (λ v. v ≢ w) ws × Distinct ws

pub Distinct-snoc :
    (ws : List ℕ) (w : ℕ) → All (λ v. v ≢ w) ws → Distinct ws → Distinct (ws ++ w ∷ [])
Distinct-snoc [] w h d = (tt, tt)
Distinct-snoc (v ∷ ws) w (hv, h) (dv, d) =
    (All-append (λ u. u ≢ v) ws (w ∷ []) dv ((λ e. hv (sym e)), tt), Distinct-snoc ws w h d)

pub All-insert {κ} :
    (P : ℕ → Type κ) (xs ys : List ℕ) (n : ℕ) → P n → All P (xs ++ ys) → All P (xs ++ n ∷ ys)
All-insert P [] ys n p h = (p, h)
All-insert P (x ∷ xs) ys n p (hx, h) = (hx, All-insert P xs ys n p h)

pub Distinct-insert :
    (xs ys : List ℕ) (n : ℕ)
    → All (λ v. v ≢ n) (xs ++ ys)
    → Distinct (xs ++ ys)
    → Distinct (xs ++ n ∷ ys)
Distinct-insert [] ys n h d = (h, d)
Distinct-insert (x ∷ xs) ys n (hx, h) (dx, d) =
    (All-insert (λ v. v ≢ x) xs ys n (λ e. hx (sym e)) dx, Distinct-insert xs ys n h d)

pub All-unlist {κ} : (P : ℕ → Type κ) (ch : ℕ) (ws : List ℕ) → All P ws → All P (unlist ch ws)
unfolding unlist
All-unlist P ch [] h = tt
All-unlist P ch (w ∷ ws) (hw, h) = elim (Bool-cases (w == ch)) [
  | inl y ↦ rw y h
  | inr n ↦ rw n (hw, All-unlist P ch ws h)
]

pub Distinct-unlist : (ch : ℕ) (ws : List ℕ) → Distinct ws → Distinct (unlist ch ws)
unfolding unlist
Distinct-unlist ch [] h = tt
Distinct-unlist ch (w ∷ ws) (hw, h) = elim (Bool-cases (w == ch)) [
  | inl y ↦ rw y h
  | inr n ↦ rw n (All-unlist (λ v. v ≢ w) ch ws hw, Distinct-unlist ch ws h)
]

-- A number stands once at most, so it is gone after its removal.
pub unlist-ne : (ch : ℕ) (ws : List ℕ) → Distinct ws → All (λ v. v ≢ ch) (unlist ch ws)
unfolding unlist
unlist-ne ch [] h = tt
unlist-ne ch (w ∷ ws) (hw, h) = elim (Bool-cases (w == ch)) [
  | inl y ↦ rw y (All-map (λ v n e. n (e ∙ sym ((==_iff w ch).0 y))) ws hw)
  | inr n ↦ rw n ((λ e. false≢true (sym n ∙ (==_iff w ch).1 e)), unlist-ne ch ws h)
]

pub unlist-append_right :
    (ch : ℕ) (ws ts : List ℕ) → contains ch ws ≡ false → unlist ch (ws ++ ts) ≡ ws ++ unlist ch ts
unfolding unlist contains
unlist-append_right ch [] ts h = refl
unlist-append_right ch (w ∷ ws) ts h = ground (arith, unlist-append_right ch ws ts)

-- Taking a number off the left part takes it off the whole, or changes nothing.
pub unlist-append_left :
    (ch : ℕ) (ws ts : List ℕ)
    → (unlist ch ws ++ ts ≡ ws ++ ts) ⊎ (unlist ch ws ++ ts ≡ unlist ch (ws ++ ts))
unfolding unlist
unlist-append_left ch [] ts = inl refl
unlist-append_left ch (w ∷ ws) ts = elim (Bool-cases (w == ch)) [
  | inl y ↦ rw y (inr refl)
  | inr n ↦ rw n (elim (unlist-append_left ch ws ts) [
    | inl e ↦ inl (ap (λ (t : List ℕ). w ∷ t) e)
    | inr e ↦ inr (ap (λ (t : List ℕ). w ∷ t) e)
  ])
]

pub contains-unlist_ne :
    (ch w : ℕ) (ws : List ℕ) → w ≢ ch → contains w (unlist ch ws) ≡ contains w ws
unfolding unlist contains
contains-unlist_ne ch w [] h = refl
contains-unlist_ne ch w (v ∷ ws) h = ground (arith, contains-unlist_ne ch w ws h)

pub contains-append : (w : ℕ) (ws ts : List ℕ) → contains w ws ≡ true → contains w (ws ++ ts) ≡ true
unfolding contains
contains-append w [] ts h = cc
contains-append w (v ∷ ws) ts h = ground (arith, contains-append w ws ts)

pub contains-snoc : (w : ℕ) (ws : List ℕ) → contains w (ws ++ w ∷ []) ≡ true
unfolding contains
contains-snoc w [] = ground arith
contains-snoc w (v ∷ ws) = ground (arith, contains-snoc w ws)

pub ne-contains : (ch : ℕ) (ws : List ℕ) → All (λ v. v ≢ ch) ws → contains ch ws ≡ false
unfolding contains
ne-contains ch [] h = refl
ne-contains ch (w ∷ ws) (hw, h) = ground (arith, ne-contains ch ws h)

contains-append_right :
    (w : ℕ) (ws ts : List ℕ) → contains w ts ≡ true → contains w (ws ++ ts) ≡ true
unfolding contains
contains-append_right w [] ts h = h
contains-append_right w (v ∷ ws) ts h = ground (arith, contains-append_right w ws ts h)

-- A number on the right of a list without repetitions is not on the left.
pub Distinct-left :
    (ch : ℕ) (ws ts : List ℕ) → Distinct (ws ++ ts) → contains ch ts ≡ true → contains ch ws ≡ false
unfolding contains
Distinct-left ch [] ts d h = refl
Distinct-left ch (w ∷ ws) ts (hw, d) h = elim (Bool-cases (w == ch)) [
  | inl y ↦ absurd (
      false≢true (
        sym (
          ne-contains ch (ws ++ ts)
            (All-map (λ v n e. n (e ∙ sym ((==_iff w ch).0 y))) (ws ++ ts) hw))
        ∙ contains-append_right ch ws ts h))
  | inr n ↦ rw n (Distinct-left ch ws ts d h)
]
