-- ===== src/Tests/Publishing.antt =====
-- A thread that publishes, on a broker that drops connections.
use levity.Prelude.{◌≡◌, refl}
use levity.Memory.{memory}
use levity.Memory.Threads.{thread_retry, restless, refusing}
use levity.Platform.{Platform, missing}
use levity.Publisher.Connection.{publish_connected, fresh, is_disconnected}
use levity.Publisher.Connection.Channelless.{publish-channelless, channelless, unsent}
use levity.Publisher.Connection.Refinement.{run_of}
use levity.Tests.Samples.{calm, empty, number}
use levity.Types.Error.{err, attribute_error}

-- The backend's platform, with the runs of this thread.
abbrev dropping : Platform
dropping = memory missing (λ n. run_of ⦃k = restless⦄ n)

publish-channelless_example :
    publish_connected ⦃p = calm⦄ ⦃k = refusing⦄ ⦃r = thread_retry⦄ "q" (number 1) (fresh, empty)
    ≡ ((channelless 0, unsent 2 empty), err attribute_error)
unfolding is_disconnected
publish-channelless_example =
    publish-channelless ⦃p = calm⦄ ⦃k = refusing⦄ "q" (number 1) ⦃r = thread_retry⦄ fresh empty refl
      refl refl refl refl
