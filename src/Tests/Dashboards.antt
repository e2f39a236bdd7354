-- ===== src/Tests/Dashboards.antt =====
-- The theorems on the dashboard, at small data.
use Prim.Native.String.{find, slice, len}
use orderedjob.Prelude.{
  ℕ, suc, ◌+◌, ◌-◌, ◌*◌, ◌^◌, ◌≡◌, ◌≢◌, ◌≤◌, ◌<◌, refl, String, true, false, leb, none, some, List,
  [], ◌∷◌, ite, text_discrete, arith, ◌↔◌, In, inl, inr, if◌then◌else◌,
}
use orderedjob.Int64.{ℤ, pos, negsuc, max_mag, lt64}
use orderedjob.Lifecycle.{processing}
use orderedjob.Job.{JobFilter}
use orderedjob.Memory.State.{Repo}
use orderedjob.Memory.Listing.{list_jobs, page}
use orderedjob.Samples.{first, one_job, stopped, no_filter, all_texts}
use orderedjob.Ui.{get, post, in_state, Request, Repository}
use orderedjob.Ui.Auth.{
  HeaderOps, Middleware, with_guard, with_auth_middleware, basic_auth, token_auth,
}
use orderedjob.Ui.Token.{TokenOps, verify_jwt, generate_jwt, decode_base64_url, dotted, parts_hold}
use orderedjob.Ui.Handlers.{
  Settings, bulk_purge_route, serve, route, handle_jobs, job_filter, page_of, limit_of, offset_of,
  wrap64,
}
use orderedjob.Ui.Access.{Served, KeepsState, serve-Served, serve-read_only}
use orderedjob.Ui.Paging.{memory_repo, handle_jobs-answers}
use orderedjob.Ui.Signing.{IsLawful, IsUnexpired, verify-generate, verified-IsSigned}

abbrev repo : Repository Repo
repo = memory_repo all_texts (λ less js. js) (λ less cs. cs) (λ s t. false) 3 50

abbrev headers : HeaderOps
headers = record {
  to_lower = λ s. s;
  has_prefix = λ s p. ite (text_discrete (slice s 0 (len p)) p) true false;
  trim_space = λ s. s;
  from = λ i s. slice s i (len s);
}

abbrev settings : Settings Repo
settings = record {
  read_only = true;
  job_types = none;
  guards = with_guard (token_auth "secret") ∷ with_guard (basic_auth "ops" "pass") ∷ [];
}

abbrev asked : Request
asked = record {
  method = post;
  parts = [];
  query = record {
    chain_id = "";
    status = in_state processing;
    job_type = "";
    tenant_id = "";
    trace_id = "";
    search = "";
    order_by = "";
    order_dir = "";
    page = pos 3;
    limit = pos 10;
    scheduled_only = false;
    token = "";
  };
  body = record { payload = none; available_at = none; job = some first; filter = no_filter };
  basic = some ("ops", "pass");
  authorization = "bearer secret";
}

serve-Served_example :
    Served headers
      (λ t s. false)
      (route repo settings (λ s. none) bulk_purge_route)
      settings.guards
      asked
      stopped
      (serve repo settings headers (λ t s. false) (λ s. none) bulk_purge_route asked stopped)
serve-Served_example =
    serve-Served repo settings headers (λ t s. false) (λ s. none) bulk_purge_route asked stopped

plain_settings :
    (m : Middleware Repo) → In (with_auth_middleware (some m)) settings.guards → KeepsState m
plain_settings m (inl e) = absurd (ground arith)
plain_settings m (inr (inl e)) = absurd (ground arith)
plain_settings m (inr (inr i)) = absurd i

serve-read_only_example :
    (serve repo settings headers (λ t s. false) (λ s. none) bulk_purge_route asked stopped).0
    ≡ stopped
serve-read_only_example =
    serve-read_only repo settings headers (λ t s. false) (λ s. none) bulk_purge_route asked stopped
      refl plain_settings

third_page : page_of (pos 3) * 200 < 2 ^ 63
unfolding page_of
third_page = omega arith

handle_jobs-answers_example :
    (JobFilter.offset (job_filter asked.query) ≡ pos ((page_of (pos 3) - 1) * limit_of (pos 10)))
    × (1 ≤ limit_of (pos 10))
    × (limit_of (pos 10) ≤ 200)
    × ((handle_jobs repo settings (record asked { method = get }) one_job).1 ≢ none)
handle_jobs-answers_example =
    handle_jobs-answers all_texts (λ less js. js) (λ less cs. cs) (λ s t. false) settings 3 50
      (record asked { method = get }) one_job third_page

-- The text up to the next dot, and the rest: three parts at most.
split_dots : ℕ → String → List String
split_dots ℕ.zero s = s ∷ []
split_dots (suc n) s =
    let i = find s "." in
    let rest = split_dots n (slice s (i + 1) (len s)) in
    if leb (len s) i then s ∷ [] else slice s 0 i ∷ rest

-- Claims are the time of the expiry, in a text of its digits' number.
abbrev ops : TokenOps ℤ
ops = record {
  split = split_dots 3;
  sign = λ secret text. secret;
  encode = λ b. b;
  decode_raw = λ s. some s;
  decode_url = λ s. none;
  decode_std = λ s. none;
  exp_of = λ b. ite (text_discrete b "later") (some (pos 900)) none;
  header = "hs256";
  marshal = λ exp. some "later";
  set_expiry = λ claims exp. exp;
}

ops-IsLawful : IsLawful ops "secret" "later"
unfolding split_dots
ops-IsLawful = record { decodes_payload = refl; decodes_signature = refl; splits = refl }

verify-generate_example :
    (token : String) × (generate_jwt ops "secret" (pos 0) (some (pos 900)) ≡ some token)
    × ((verify_jwt ops token "secret" (pos 800) ≡ true)
        ↔ IsUnexpired (pos 800) (ops.exp_of "later"))
verify-generate_example =
    verify-generate ops "secret" (pos 0) (some (pos 900)) "later" (pos 800) ops-IsLawful refl

accepted : verify_jwt ops "hs256.later.secret" "secret" (pos 800) ≡ true
unfolding verify_jwt parts_hold split_dots decode_base64_url text_discrete lt64
accepted = refl

verified-IsSigned_example :
    (header payload signed_by : String) × (ops.split "hs256.later.secret"
      ≡ header ∷ payload ∷ signed_by ∷ [])
    × (decode_base64_url ops signed_by ≡ some (ops.sign "secret" (dotted ops header payload)))
verified-IsSigned_example = verified-IsSigned ops "secret" "hs256.later.secret" (pos 800) accepted

-- The greatest page: the offset wraps round to -40, and the repository in memory panics.
abbrev last_page : Request
last_page = record asked {
  method = get;
  query = record asked.query { page = pos max_mag; limit = pos 0 };
}

last_page_offset : JobFilter.offset (job_filter last_page.query) ≡ negsuc 39
unfolding job_filter offset_of wrap64 page_of limit_of
last_page_offset = refl

last_page_panics : (handle_jobs repo settings last_page one_job).1 ≡ none
unfolding handle_jobs memory_repo list_jobs page job_filter offset_of wrap64 page_of limit_of
last_page_panics = refl
