-- ===== src/Httpd/Clips/Flight.antt =====
-- internal/httpd/singleflight.go and clip.go: POST /clip requests at the same time, as a step relation.
use clipbeam_cli.Prelude.{
  ◌≡◌, Bool, true, false, none, some, List, [], ◌∷◌, ◌++◌, arith, length, length-append,
}
use clipbeam_cli.Receive.{ReceiveStore}
use clipbeam_cli.Httpd.Gate.{Options, Request}
use clipbeam_cli.Httpd.Response.{HttpReply}
use clipbeam_cli.Httpd.Clips.{Surroundings, try_acquire, release, clip_checks, transfer}

-- The slot, the requests that hold it, and the store.
pub record Flight : Type 0 where
  pub taken : Bool
  pub running : List Request
  pub store : ReceiveStore

abbrev pub idle : ReceiveStore → Flight
idle s = record { taken = false; running = []; store = s }

module _ (env : Surroundings) (o : Options) where
  -- One request passes one point of `handleClip`: it is answered by a check, it finds the slot taken, it takes the
  -- slot, or its transfer ends and the deferred release runs.
  pub data Step : Flight → Flight → Type 0 where
    checked :
        (f : Flight) (r : Request) (reply : HttpReply) → clip_checks env o r ≡ some reply → Step f f
    busy :
        (f : Flight) (r : Request)
        → clip_checks env o r ≡ none
        → try_acquire f.taken ≡ none
        → Step f f
    started :
        (taken taken' : Bool) (running : List Request) (s : ReceiveStore) (r : Request)
        → clip_checks env o r ≡ none
        → try_acquire taken ≡ some taken'
        → Step
            (record { taken = taken; running = running; store = s })
            (record { taken = taken'; running = r ∷ running; store = s })
    ended :
        (taken : Bool) (before after : List Request) (s : ReceiveStore) (r : Request)
        → Step
            (record { taken = taken; running = before ++ r ∷ after; store = s })
            (record {
              taken = release taken;
              running = before ++ after;
              store = (transfer env o r s).1;
            })

  pub data Reaches (s : ReceiveStore) : Flight → Type 0 where
    at_start : Reaches s (idle s)
    one_more : (f g : Flight) → Reaches s f → Step f g → Reaches s g

  -- A free slot is one that no request holds, and a taken one is held by one.
  pub Held : Bool → List Request → Type 0
  Held true running = length running ≡ 1
  Held false running = length running ≡ 0

  started-Held :
      (taken taken' : Bool) (running : List Request) (r : Request)
      → try_acquire taken ≡ some taken'
      → Held taken running
      → Held taken' (r ∷ running)
  unfolding Held try_acquire
  started-Held true taken' running r e h = absurd (cc)
  started-Held false true running r e h = omega (arith, h)
  started-Held false false running r e h = absurd (cc)

  ended-Held :
      (taken : Bool) (before after : List Request) (r : Request)
      → Held taken (before ++ r ∷ after)
      → Held (release taken) (before ++ after)
  unfolding Held release
  ended-Held true before after r h =
      omega (arith, h, length-append before (r ∷ after), length-append before after)
  ended-Held false before after r h =
      omega (arith, h, length-append before (r ∷ after), length-append before after)

  Step-Held : {f g : Flight} → Step f g → Held f.taken f.running → Held g.taken g.running
  Step-Held (checked f r reply e) h = h
  Step-Held (busy f r e e') h = h
  Step-Held (started taken taken' running s r e e') h = started-Held taken taken' running r e' h
  Step-Held (ended taken before after s r) h = ended-Held taken before after r h

  -- However the requests of /clip interleave, one transfer at most runs at a time, and the slot is taken exactly while
  -- one runs.
  pub Reaches-Held : {s : ReceiveStore} {f : Flight} → Reaches s f → Held f.taken f.running
  unfolding Held
  Reaches-Held at_start = omega arith
  Reaches-Held (one_more f g h st) = Step-Held st (Reaches-Held h)
