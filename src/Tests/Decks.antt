-- ===== src/Tests/Decks.antt =====
-- The theorems on the active stream and the stream on deck.
use sink_sdds.Base.{◌≡◌, refl, true, false, [], ◌∷◌, arith}
use sink_sdds.Processor.Types.{octet, short, float}
use sink_sdds.Component.{
  Component, proc, deck, stream_is_active, new_stream, streams_done, get_status,
}
use sink_sdds.Component.Decks.{
  IsSingle, active_count, deck_count, new_stream-waits, new_stream-IsSingle,
}
use sink_sdds.Component.Handover.{streams_done-promotes, streams_done-loses}
use sink_sdds.Tests.Samples.{env, stream_a, stream_b, holding, component, busy}

new_stream-waits_example :
    let d = new_stream env [] octet stream_a busy in
    (deck octet d ≡ record stream_a { enabled = false } ∷ [])
    × (deck_count d ≡ 1)
    × ((get_status d).stream_on_deck ≡ "A")
    × ((get_status d).current_stream ≡ (get_status busy).current_stream)
    × (d.floatproc ≡ busy.floatproc)
    × (d.shortproc ≡ busy.shortproc)
    × (d.octetproc ≡ busy.octetproc)
unfolding stream_is_active
new_stream-waits_example = new_stream-waits env [] octet stream_a busy refl

new_stream-IsSingle_example : IsSingle (new_stream env [] octet stream_a busy)
new_stream-IsSingle_example =
    new_stream-IsSingle env [] octet stream_a busy
      (record { one_active = omega arith; one_on_deck = omega arith })

-- The short stream has been let go, and a float stream waits.
abbrev waiting : Component
waiting = record component { float_on_deck = stream_b ∷ [] }

streams_done-promotes_example :
    let d = streams_done env [] waiting in
    ((proc float d).stream ≡ record stream_b { enabled = true })
    × ((get_status d).current_stream ≡ "B")
    × ((get_status d).stream_on_deck ≡ "")
    × (active_count d ≡ 1)
    × (deck_count d ≡ 0)
unfolding stream_is_active
streams_done-promotes_example =
    streams_done-promotes env [] float stream_b waiting refl refl (omega arith) refl

-- A short stream waits for a short stream that is still active.
abbrev queued : Component
queued = record component { shortproc = holding short; short_on_deck = stream_b ∷ [] }

streams_done-loses_example :
    let d = streams_done env [] queued in
    (d.floatproc ≡ queued.floatproc)
    × (d.shortproc ≡ queued.shortproc)
    × (d.octetproc ≡ queued.octetproc)
    × (deck_count d ≡ 0)
streams_done-loses_example =
    streams_done-loses env [] short stream_b queued refl (omega arith) refl refl
