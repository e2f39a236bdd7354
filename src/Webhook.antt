-- ===== src/Webhook.antt =====
-- webhook.go, and the listeners of events.go: what a dispatcher sends. encoding/json, net/http and the
-- canonical form of a header's name are parameters; a call of the client is the request that it sends.
pub mod Sending
use Prim.Native.String.{◌++◌}
use orderedjob.Prelude.{
  ℕ, String, Bool, false, true, ◌||◌, not, Option, none, some, List, [], ◌∷◌, text_discrete,
  if◌then◌else◌,
}
use orderedjob.Int64.{ℤ, pos, lt64}
use orderedjob.GoMap.{GoMap, insert}
use orderedjob.Job.{Job, is_empty}

-- `secret` is kept and not read.
pub record WebhookConfig : Type 0 where
  pub url : String
  pub secret : String
  pub headers : GoMap String String
  pub slack_format : Bool

pub record WebhookPayload : Type 0 where
  pub event : String
  pub timestamp : ℕ
  pub chain_id : String
  pub job_id : String
  pub job_type : String
  pub error : String
  pub dlq_count : ℤ

-- A request of net/http: the address, the body, the header by canonical names.
pub record Request : Type 0 where
  pub address : String
  pub body : String
  pub header : GoMap String String

-- What the code takes from the libraries. `marshal_slack` is json.Marshal on the object with the text,
-- `reads_url` whether NewRequestWithContext has no error, `canonical` what Header.Set does to a name.
pub record Net : Type 0 where
  pub marshal : WebhookPayload → Option String
  pub marshal_slack : String → Option String
  pub reads_url : String → Bool
  pub canonical : String → String
  pub uuid_text : ℕ → String
  pub number_text : ℤ → String

abbrev pub line_if : Bool → String → String
line_if true s = s
line_if false s = ""

-- The text for Slack.
unfoldable pub slack_text : Net → WebhookPayload → String
slack_text net p =
    "⚠\u{fe0f} *[orderedjob Alert]* Event: `"
    ++ p.event
    ++ "`"
    ++ line_if (not (is_empty p.job_id)) ("\n• Job ID: `" ++ p.job_id ++ "` (" ++ p.job_type ++ ")")
    ++ line_if (not (is_empty p.chain_id)) ("\n• Chain ID: `" ++ p.chain_id ++ "`")
    ++ line_if (not (is_empty p.error)) ("\n• Error: `" ++ p.error ++ "`")
    ++ line_if (lt64 (pos 0) p.dlq_count) ("\n• DLQ Count: `" ++ net.number_text p.dlq_count ++ "`")

-- The bytes of the body.
unfoldable pub body_bytes : Net → WebhookConfig → WebhookPayload → Option String
body_bytes net cfg p =
    if cfg.slack_format then net.marshal_slack (slack_text net p) else net.marshal p

-- for k, v := range w.config.Headers { req.Header.Set(k, v) }
unfoldable pub set_headers :
    (String → String) → GoMap String String → GoMap String String → GoMap String String
set_headers canonical [] header = header
set_headers canonical ((k, v) ∷ rest) header =
    set_headers canonical rest (insert text_discrete (canonical k) v header)

-- The request with its header.
unfoldable pub make_request : Net → WebhookConfig → String → Request
make_request net cfg bytes = record {
  address = cfg.url;
  body = bytes;
  header =
      set_headers net.canonical cfg.headers
        (insert text_discrete (net.canonical "Content-Type") "application/json" []);
}

-- dispatch, from the body on.
unfoldable pub send : Net → WebhookConfig → Option String → List Request
send net cfg none = []
send net cfg (some bytes) = if net.reads_url cfg.url then make_request net cfg bytes ∷ [] else []

-- The requests that `dispatch` gives to the client.
unfoldable pub dispatch : Net → WebhookConfig → WebhookPayload → List Request
dispatch net cfg p = if is_empty cfg.url then [] else send net cfg (body_bytes net cfg p)

abbrev error_text : Option String → String
error_text none = ""
error_text (some t) = t

-- OnJobFailed; the error is given as its text.
unfoldable pub on_job_failed : Net → WebhookConfig → Job → Option String → ℕ → List Request
on_job_failed net cfg job error now = dispatch net cfg (record {
  event = "OnJobFailed";
  timestamp = now;
  chain_id = job.chain_id;
  job_id = net.uuid_text job.id;
  job_type = job.job_type;
  error = error_text error;
  dlq_count = pos 0;
})

-- OnChainBlocked
unfoldable pub on_chain_blocked : Net → WebhookConfig → String → Job → ℕ → List Request
on_chain_blocked net cfg chain_id job now = dispatch net cfg (record {
  event = "OnChainBlocked";
  timestamp = now;
  chain_id = chain_id;
  job_id = net.uuid_text job.id;
  job_type = job.job_type;
  error = "";
  dlq_count = pos 0;
})

-- OnDLQThresholdExceeded
unfoldable pub on_dlq_threshold_exceeded : Net → WebhookConfig → ℤ → ℕ → List Request
on_dlq_threshold_exceeded net cfg dlq_count now = dispatch net cfg (record {
  event = "OnDLQThresholdExceeded";
  timestamp = now;
  chain_id = "";
  job_id = "";
  job_type = "";
  error = "";
  dlq_count = dlq_count;
})
