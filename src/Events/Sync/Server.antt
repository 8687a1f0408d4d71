-- ===== src/Events/Sync/Server.antt =====
-- What JetStream documents of its streams: the law that the clients of `JetStream` rely on.
use walnats.Prelude.{String, ◌≡◌, ◌≢◌, ◌⊎◌, Option, none, some, ◌==◌, string_eq, if◌then◌else◌}
use walnats.Exceptions.{Exc}
use walnats.Errors.{
  JsExc, ApiError, bad_request, server_error, other, js_stream_exists, js_stream_config,
}
use walnats.Events.Event.{StreamConfig}
use walnats.Events.Sync.{JetStream, Reply, done, fail}

module _ (js : JetStream) (stream : js.State → String → Option StreamConfig) where
  -- The call is done, and the stream of the configuration is the one that changes.
  pub record Stored (c : StreamConfig) (s : js.State) (r : Reply × js.State) : Type 0 where
    pub reply : r.0 ≡ done
    pub content : (n : String) → stream r.1 n ≡ (if c.name == n then some c else stream s n)

  -- The call raises, and the server is as before.
  pub record Refused (e : JsExc) (s : js.State) (r : Reply × js.State) : Type 0 where
    pub reply : r.0 ≡ fail e
    pub same : r.1 ≡ s

-- A new stream is stored or refused. To add a stream that is there changes nothing: it is done if the
-- configuration is the same, and a bad request with code 10058 if not. An update of a stream that is
-- there stores it, or is refused; one of a stream that is not there raises another error
-- (`NotFoundError`). A stream that is refused for its configuration has code 10052.
pub record IsJetStream (js : JetStream) : Type 0 where
  pub stream : js.State → String → Option StreamConfig
  pub add_new :
      (c : StreamConfig) (s : js.State)
      → stream s c.name ≡ none
      → Stored js stream c s (js.add_stream c s)
        ⊎ ((e : ApiError) × (e.err_code ≡ some js_stream_config)
            × Refused js stream (server_error e) s (js.add_stream c s))
  pub add_same :
      (c : StreamConfig) (s : js.State) → stream s c.name ≡ some c → js.add_stream c s ≡ (done, s)
  pub add_other :
      (c old : StreamConfig) (s : js.State)
      → stream s c.name ≡ some old
      → old ≢ c
      → (e : ApiError) × (e.err_code ≡ some js_stream_exists)
        × Refused js stream (bad_request e) s (js.add_stream c s)
  pub update_old :
      (c old : StreamConfig) (s : js.State)
      → stream s c.name ≡ some old
      → Stored js stream c s (js.update_stream c s)
        ⊎ ((e : ApiError) × (e.err_code ≡ some js_stream_config)
            × Refused js stream (server_error e) s (js.update_stream c s))
  pub update_new :
      (c : StreamConfig) (s : js.State)
      → stream s c.name ≡ none
      → (x : Exc) × Refused js stream (other x) s (js.update_stream c s)
