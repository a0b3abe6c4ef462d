-- ===== src/Types/PublishRun.antt =====
-- What comes of one run of the body of `publish`, be/ocpp/services/queue_publisher.py: of the
-- connection, the channel and `basic_publish` of pika, which are not the repository's.
use levity.Prelude.{◌≡◌, refl, inl, inr, ◌⊎◌}
use levity.Types.Error.{Error}

-- The message is handed to the broker and the run returns; the run raises before that, in
-- `_reconnect`, at `_channel` or in `basic_publish`; or the message is out and the run raises yet.
pub data PublishRun : Type 0 where
  sent_off : PublishRun
  not_sent sent_and_raised : Error → PublishRun

pub PublishRun-cases :
    (r : PublishRun) → (r ≡ sent_off) ⊎ ((e : Error) × ((r ≡ not_sent e) ⊎ (r ≡ sent_and_raised e)))
PublishRun-cases sent_off = inl refl
PublishRun-cases (not_sent e) = inr (e, inl refl)
PublishRun-cases (sent_and_raised e) = inr (e, inr refl)
