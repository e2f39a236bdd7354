-- ===== src/Tests/Webhooks.antt =====
-- The theorem on webhook.go, at a job that failed.
use orderedjob.Prelude.{true, false, some, [], ◌∷◌}
use orderedjob.Int64.{pos}
use orderedjob.Webhook.{WebhookConfig, WebhookPayload, Net}

abbrev net : Net
net = record {
  marshal = λ p. some p.job_id;
  marshal_slack = λ t. some t;
  reads_url = λ u. true;
  canonical = λ k. k;
  uuid_text = λ n. "1";
  number_text = λ n. "0";
}

abbrev config : WebhookConfig
config = record {
  url = "https://example.org/hook";
  secret = "";
  headers = ("X-Custom-Header", "TestValue") ∷ [];
  slack_format = false;
}

abbrev one_failed : WebhookPayload
one_failed = record {
  event = "OnJobFailed";
  timestamp = 10;
  chain_id = "customer 7";
  job_id = "1";
  job_type = "mail";
  error = "connection reset";
  dlq_count = pos 0;
}
