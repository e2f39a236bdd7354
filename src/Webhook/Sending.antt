-- ===== src/Webhook/Sending.antt =====
-- webhook.go: when a request is sent, and what its header holds.
use mathlib.Core.List.{lookup}
use orderedjob.Prelude.{String, ◌≡◌, true, false, none, some, ◌⊎◌, text_discrete, In}
use orderedjob.GoMap.{GoMap}
use orderedjob.Job.{is_empty}
use orderedjob.Webhook.{WebhookConfig, WebhookPayload, Request, Net, body_bytes}

-- No two names of the list have one canonical form.
abbrev pub IsApart : (String → String) → GoMap String String → Type 0
IsApart canonical m =
    (a b : String × String) → In a m → In b m → canonical a.0 ≡ canonical b.0 → a ≡ b

-- Why a dispatcher sends nothing: there is no address, no body, or no request to it.
abbrev pub IsSilent : Net → WebhookConfig → WebhookPayload → Type 0
IsSilent net cfg p =
    (is_empty cfg.url ≡ true) ⊎ ((body_bytes net cfg p ≡ none) ⊎ (net.reads_url cfg.url ≡ false))

-- The request has the address and the headers of the configuration, and the body.
abbrev pub Carries : Net → WebhookConfig → WebhookPayload → Request → Type 0
Carries net cfg p req =
    (req.address ≡ cfg.url)
    × (some req.body ≡ body_bytes net cfg p)
    × ((k v : String)
        → In (k, v) cfg.headers
        → lookup text_discrete (net.canonical k) req.header ≡ some v)
