-- ===== src/Tests/Rounds.antt =====
-- Two rounds of the consumer of be/ocpp/services/queue_consumer.py that end badly.
use levity.Services.Consumer.Rounds.{
  consume_sessions-Ends, handled, acknowledgements, after_close, by_break,
}
use levity.Prelude.{◌≡◌, none, some, [], ◌∷◌}
use levity.Services.Consumer.{
  Queue, Session, connection_closed, channel_error, left, consume, consume_sessions,
}
use levity.Tests.Samples.{calm, charging, start_event, connect_event}
use levity.Types.Error.{ok, err, value_error}

-- A round that loses its connection before an acknowledgement, and one that loses its channel.
abbrev losing : Session
losing = record {
  deliveries = ok connect_event ∷ [];
  unacknowledged = some (ok (start_event "7"));
  ending = connection_closed;
}

abbrev breaking : Session
breaking = record {
  deliveries = ok (start_event "7") ∷ err value_error ∷ ok (start_event "8") ∷ [];
  unacknowledged = none;
  ending = channel_error;
}

abbrev full : Queue
full = record { world = charging; acknowledged = 0 }

consume_sessions-Ends_example :
    consume_sessions ⦃p = calm⦄ (losing ∷ breaking ∷ losing ∷ []) full
    ≡ left (record {
      world =
          (consume ⦃p = calm⦄
            (ok connect_event
              ∷ ok (start_event "7")
              ∷ ok (start_event "7")
              ∷ err value_error
              ∷ ok (start_event "8")
              ∷ [])
            full).world;
      acknowledged = 4;
    })
unfolding handled acknowledgements
consume_sessions-Ends_example =
    consume_sessions-Ends ⦃p = calm⦄ (losing ∷ []) breaking (losing ∷ []) left full
      (after_close, tt) by_break
