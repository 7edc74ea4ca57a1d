-- ===== src/Component/Decks.antt =====
-- The one active stream and the one on deck: `setFloatStream`, `setShortStream`, `setOctetStream` and
-- `streamsDone` of cpp/SinkSDDS.cpp.
use sink_sdds.Base.{
  ℕ, ◌+◌, ◌≤◌, ◌≡◌, refl, Bool, true, false, none, some, List, [], ◌∷◌, arith, if◌then◌else◌,
  length, Bool-cases, Option-cases, inl, inr,
}
use sink_sdds.Processor.Types.{Native, octet, short, float, Env, Read, Stream}
use sink_sdds.Processor.Loop.Ending.{as_number}
use sink_sdds.Component.{
  Component, deck, with_deck, back, stream_is_on_deck, stream_is_active, drop_on_deck_stream,
  new_stream, give, promote, streams_done, get_status,
}

abbrev pub deck_count : Component → ℕ
deck_count c = length c.float_on_deck + length c.short_on_deck + length c.octet_on_deck

abbrev pub active_count : Component → ℕ
active_count c =
    as_number c.floatproc.active_stream
    + as_number c.shortproc.active_stream
    + as_number c.octetproc.active_stream

-- At most one processor holds a stream, and at most one stream is on deck.
pub record IsSingle (c : Component) : Type 0 where
  pub one_active : active_count c ≤ 1
  pub one_on_deck : deck_count c ≤ 1

drop_on_deck_stream-empty :
    (c : Component)
    → drop_on_deck_stream c
      ≡ record c { float_on_deck = []; short_on_deck = []; octet_on_deck = [] }
unfolding drop_on_deck_stream
drop_on_deck_stream-empty c = ground arith

-- What a new stream finds on deck: nothing.
cleared_deck :
    (c : Component)
    → (if stream_is_on_deck c then drop_on_deck_stream c else c)
      ≡ record c { float_on_deck = []; short_on_deck = []; octet_on_deck = [] }
unfolding stream_is_on_deck
cleared_deck c = ground (arith, drop_on_deck_stream-empty c)

length-back : (ss : List Stream) → back ss ≡ none → length ss ≡ 0
length-back [] e = refl
length-back (s ∷ []) e = absurd (cc)
length-back (s ∷ t ∷ ss) e = absurd (omega (arith, length-back (t ∷ ss) e))

as_number-le : (b : Bool) → as_number b ≤ 1
as_number-le true = omega arith
as_number-le false = omega arith

module _ (E : Env) (reads : List Read) where
  new_stream-active :
      (n : Native) (s : Stream) (c : Component)
      → stream_is_active c ≡ true
      → new_stream E reads n s c
        ≡ with_deck n
            (record s { enabled = false } ∷ [])
            (record c { float_on_deck = []; short_on_deck = []; octet_on_deck = [] })
  unfolding new_stream
  new_stream-active octet s c h = rw h (rw (cleared_deck c))
  new_stream-active short s c h = rw h (rw (cleared_deck c))
  new_stream-active float s c h = rw h (rw (cleared_deck c))

  -- While a stream is active, a new stream on any port is disabled and becomes the one stream on deck,
  -- in place of a stream on deck on any port. The status names it, and the processors, and so the
  -- current stream, stay as they are.
  pub new_stream-waits :
      (n : Native) (s : Stream) (c : Component)
      → stream_is_active c ≡ true
      → let d = new_stream E reads n s c in
        (deck n d ≡ record s { enabled = false } ∷ [])
        × (deck_count d ≡ 1)
        × ((get_status d).stream_on_deck ≡ s.stream_id)
        × ((get_status d).current_stream ≡ (get_status c).current_stream)
        × (d.floatproc ≡ c.floatproc)
        × (d.shortproc ≡ c.shortproc)
        × (d.octetproc ≡ c.octetproc)
  unfolding get_status
  new_stream-waits octet s c h =
      rw (new_stream-active octet s c h) (refl, refl, refl, refl, refl, refl, refl)
  new_stream-waits short s c h =
      rw (new_stream-active short s c h) (refl, refl, refl, refl, refl, refl, refl)
  new_stream-waits float s c h =
      rw (new_stream-active float s c h) (refl, refl, refl, refl, refl, refl, refl)

  give-IsSingle :
      (n : Native) (s : Stream) (c : Component)
      → stream_is_active c ≡ false
      → (active_count (give E reads n s c) ≤ 1) × (deck_count (give E reads n s c) ≡ deck_count c)
  unfolding stream_is_active
  give-IsSingle octet s c h =
      ground (arith, as_number-le (give E reads octet s c).octetproc.active_stream)
  give-IsSingle short s c h =
      ground (arith, as_number-le (give E reads short s c).shortproc.active_stream)
  give-IsSingle float s c h =
      ground (arith, as_number-le (give E reads float s c).floatproc.active_stream)

  pub new_stream-idle :
      (n : Native) (s : Stream) (c : Component)
      → stream_is_active c ≡ false
      → new_stream E reads n s c ≡ give E reads n s c
  unfolding new_stream
  new_stream-idle n s c h = rw h

  -- The listeners of the three ports keep at most one stream active and at most one on deck.
  pub new_stream-IsSingle :
      (n : Native) (s : Stream) (c : Component) → IsSingle c → IsSingle (new_stream E reads n s c)
  new_stream-IsSingle n s c v = elim (Bool-cases (stream_is_active c)) [
    | inl e ↦
        let (on_deck, count, named, current, f, h, o) = new_stream-waits n s c e in
        record { one_active = rw (f, h, o) v.one_active; one_on_deck = omega arith }
    | inr e ↦ rw (new_stream-idle n s c e) (record {
      one_active = (give-IsSingle n s c e).0;
      one_on_deck = omega (arith, (give-IsSingle n s c e).1);
    })
  ]

  promote-IsSingle :
      (n : Native) (s : Stream) (c : Component)
      → stream_is_active c ≡ false
      → deck_count c ≤ 1
      → IsSingle (promote E reads n s c)
  unfolding promote
  promote-IsSingle octet s c h v =
      omega (arith, give-IsSingle octet (record s { enabled = true }) c h)
  promote-IsSingle short s c h v =
      omega (arith, give-IsSingle short (record s { enabled = true }) c h)
  promote-IsSingle float s c h v =
      omega (arith, give-IsSingle float (record s { enabled = true }) c h)

  -- The branch that `streamsDone` takes, if any.
  pub streams_done_cases {ℓ} :
      (P : Component → Type ℓ) (c : Component)
      → (deck_count c ≡ 0 → P c)
      → ((n : Native) (s : Stream) → back (deck n c) ≡ some s → P (promote E reads n s c))
      → P (streams_done E reads c)
  unfolding streams_done
  streams_done_cases P c none_case some_case = elim (Option-cases (back c.float_on_deck)) [
    | inr (s, e) ↦ rw (e, streams_done) (some_case float s e)
    | inl e ↦ elim (Option-cases (back c.short_on_deck)) [
      | inr (s, g) ↦ rw (e, g, streams_done) (some_case short s g)
      | inl g ↦ elim (Option-cases (back c.octet_on_deck)) [
        | inr (s, k) ↦ rw (e, g, k, streams_done) (some_case octet s k)
        | inl k ↦
            rw (e, g, k, streams_done)
              (none_case (
                omega (
                  arith,
                  length-back c.float_on_deck e,
                  length-back c.short_on_deck g,
                  length-back c.octet_on_deck k,
                )))
      ]
    ]
  ]

  -- `streamsDone`, called with no stream active, keeps at most one stream active and at most one on
  -- deck.
  pub streams_done-IsSingle :
      (c : Component) → stream_is_active c ≡ false → IsSingle c → IsSingle (streams_done E reads c)
  streams_done-IsSingle c h v =
      streams_done_cases IsSingle c (λ _. v) (λ n s _. promote-IsSingle n s c h v.one_on_deck)
