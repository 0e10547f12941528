-- ===== src/PeerLoop/Laws.antt =====
-- When a connection counts as alive, and which streams its delegate gets.
use paper_plane.Prelude.{
  ℕ, ◌≡◌, refl, Bool, true, false, not, ◌||◌, none, some, List, [], ◌∷◌, ◌++◌, any, arith,
  append-nil, append_assoc,
}
use paper_plane.PeerLoop.{
  Connection, changed, next_stream, broken, finished, new_connection, Happening, inbound,
  open_attempt, live_through,
}

-- The session is over.
abbrev pub ends : Happening → Bool
ends (inbound broken) = true
ends (inbound finished) = true
ends _ = false

abbrev pub refused : Happening → Bool
refused (open_attempt none) = true
refused _ = false

-- The streams that arrive before the session is over.
abbrev pub arrived : List Happening → List ℕ
arrived [] = []
arrived (inbound (next_stream stream) ∷ es) = stream ∷ arrived es
arrived (inbound changed ∷ es) = arrived es
arrived (inbound broken ∷ es) = []
arrived (inbound finished ∷ es) = []
arrived (open_attempt opened ∷ es) = arrived es

over :
    (es : List Happening) (c : Connection)
    → c.looping ≡ false
    → (live_through es c).handled ≡ c.handled
unfolding live_through
over [] c h = refl
over (inbound changed ∷ es) c h = over es c h
over (inbound (next_stream s) ∷ es) c h = ground (arith, over es c)
over (inbound broken ∷ es) c h = ground (arith, over es c)
over (inbound finished ∷ es) c h = ground (arith, over es c)
over (open_attempt none ∷ es) c h = over es (record c { is_alive = false }) h
over (open_attempt (some s) ∷ es) c h = over es c h

handled_lem :
    (es : List Happening) (c : Connection)
    → c.looping ≡ true
    → (live_through es c).handled ≡ c.handled ++ arrived es
unfolding live_through
handled_lem [] c h = ground (arith, append-nil c.handled)
handled_lem (inbound changed ∷ es) c h = handled_lem es c h
handled_lem (inbound (next_stream s) ∷ es) c h = ground (
  arith,
  handled_lem es (record c { handled = c.handled ++ s ∷ [] }),
  append_assoc c.handled (s ∷ []) (arrived es),
)
handled_lem (inbound broken ∷ es) c h =
    ground (arith, append-nil c.handled, over es (record c { is_alive = false; looping = false }))
handled_lem (inbound finished ∷ es) c h =
    ground (arith, append-nil c.handled, over es (record c { is_alive = false; looping = false }))
handled_lem (open_attempt none ∷ es) c h = handled_lem es (record c { is_alive = false }) h
handled_lem (open_attempt (some s) ∷ es) c h = handled_lem es c h

-- A connection that is not alive stays so.
dead_stays :
    (es : List Happening) (c : Connection)
    → c.is_alive ≡ false
    → (live_through es c).is_alive ≡ false
unfolding live_through
dead_stays [] c h = h
dead_stays (inbound changed ∷ es) c h = dead_stays es c h
dead_stays (inbound (next_stream s) ∷ es) c h =
    ground (arith, dead_stays es (record c { handled = c.handled ++ s ∷ [] }), dead_stays es c)
dead_stays (inbound broken ∷ es) c h =
    ground (arith, dead_stays es c, dead_stays es (record c { is_alive = false; looping = false }))
dead_stays (inbound finished ∷ es) c h =
    ground (arith, dead_stays es c, dead_stays es (record c { is_alive = false; looping = false }))
dead_stays (open_attempt none ∷ es) c h = dead_stays es (record c { is_alive = false }) refl
dead_stays (open_attempt (some s) ∷ es) c h = dead_stays es c h

alive_lem :
    (es : List Happening) (c : Connection)
    → c.looping ≡ true
    → c.is_alive ≡ true
    → (live_through es c).is_alive ≡ not (any ends es || any refused es)
unfolding live_through
alive_lem [] c l h = h
alive_lem (inbound changed ∷ es) c l h = alive_lem es c l h
alive_lem (inbound (next_stream s) ∷ es) c l h =
    ground (arith, alive_lem es (record c { handled = c.handled ++ s ∷ [] }))
alive_lem (inbound broken ∷ es) c l h =
    ground (arith, dead_stays es (record c { is_alive = false; looping = false }))
alive_lem (inbound finished ∷ es) c l h =
    ground (arith, dead_stays es (record c { is_alive = false; looping = false }))
alive_lem (open_attempt none ∷ es) c l h =
    ground (arith, dead_stays es (record c { is_alive = false }) refl)
alive_lem (open_attempt (some s) ∷ es) c l h = alive_lem es c l h

-- Whatever happens to a new connection, it counts as alive exactly until its session has ended or
-- broken or has refused to open a stream; and its delegate is given the streams that arrive before
-- the session ends or breaks, in their order.
pub live_through_lem :
    (es : List Happening)
    → ((live_through es new_connection).is_alive ≡ not (any ends es || any refused es))
      × ((live_through es new_connection).handled ≡ arrived es)
live_through_lem es = (alive_lem es new_connection refl refl, handled_lem es new_connection refl)
