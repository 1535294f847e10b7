-- ===== src/Examples/Network.antt =====
-- The client of the REST API, and the connection of the app.
use gourl.Common.{
  ℕ, true, false, if◌then◌else◌, none, some, List, [], ◌∷◌, ◌++◌, Text, codes, same, All, ◌≡◌, ◌⊎◌,
  refl, arith, same_refl, ◌∙◌,
}
use gourl.Platform.{Url}
use gourl.Api.Storage.{Storage}
use gourl.Api.Server.{is_trusted_insecure_host, trust_insecure_host, is_trusted-trust}
use gourl.Api.Urls.{link_urls, link_bases, main_base}
use gourl.Api.Urls.Bases.{link_urls_distinct, NoRepeat, IsBase, IsServed}
use gourl.Api.Request.{Response, answer, answer_rejects, rejected_status, is_ok}
use gourl.Api.Stream.{dropped, fired, closed, on_events, opened, on_chunks}
use gourl.Api.Stream.Source.{message, on_log, on_source_events}
use gourl.Backend.Logs.{Sent, event, ping, print_stream, payloads, IsSent}
use gourl.Backend.Logs.Stream.{on_chunks-on_source_events}
use gourl.Common.{has_unit-Lacks, trim, trim_start, trim_end, is_space, map}
use gourl.Api.Stream.Retry.{IsSound, on_events-IsSound, no_fetch_after_close}
use gourl.Auth.Connect.{
  Connect, parsed, submit, submit_secure, confirm_insecure, submit-confirm_insecure, target_of,
}
use gourl.Examples.Values.{parse_url, storage, config, hosts_codec}

link_urls_distinct_example :
    NoRepeat (link_urls (codes "x") config none (codes "http://o"))
    × All IsBase (link_bases config none (codes "http://o"))
    × All
        (IsServed (link_bases config none (codes "http://o")))
        (main_base config none (codes "http://o") ∷ config.extra_base_urls)
link_urls_distinct_example = link_urls_distinct (codes "x") config none (codes "http://o")

abbrev refusal : Response ℕ
refusal = record { status = 401; error = none; value = none }

answer_rejects_example :
    rejected_status [] [] (answer [] [] none (codes "/admin") refusal).outcome
    ≡ (if is_ok 401 then none else some 401)
answer_rejects_example = answer_rejects [] [] none (codes "/admin") refusal

abbrev sent : List Sent
sent = event (codes "{1}") ∷ ping ∷ event (codes "{}") ∷ []

abbrev stream_chunks : List Text
stream_chunks = codes "event: log\ndata: {1}\n" ∷ codes "\n: ping\n\nevent: log\ndata: {}\n\n" ∷ []

sent-IsSent : All IsSent sent
unfolding trim trim_start trim_end is_space
sent-IsSent = (
  record { one_line = has_unit-Lacks 10 (codes "{1}") refl; is_trimmed = refl },
  (tt, (record { one_line = has_unit-Lacks 10 (codes "{}") refl; is_trimmed = refl }, tt)),
)

on_chunks-on_source_events_example :
    let (records, left) = on_chunks (λ s. some s) [] stream_chunks in
    (map on_log records ≡ on_source_events (λ s. some s) (map message (payloads sent)))
    × (left ≡ [])
on_chunks-on_source_events_example =
    on_chunks-on_source_events (λ s. some s) sent stream_chunks sent-IsSent
      (unfold print_stream in refl)

on_events-IsSound_example : IsSound (on_events (dropped ∷ fired ∷ dropped ∷ closed ∷ []) opened)
on_events-IsSound_example =
    on_events-IsSound (dropped ∷ fired ∷ dropped ∷ closed ∷ []) opened
      (record { closed_quiet = refl; one_at_a_time = refl })

no_fetch_after_close_example :
    (on_events ((dropped ∷ []) ++ closed ∷ fired ∷ []) opened).fetches
    ≡ (on_events (dropped ∷ []) opened).fetches
no_fetch_after_close_example = no_fetch_after_close (dropped ∷ []) (fired ∷ []) opened

abbrev page : Connect
page = record { url = codes "http://ex/x"; token = codes "tok"; busy = false; pending = none }

abbrev url : Url
url = record {
  protocol = codes "http:";
  host = codes "ex";
  pathname = [];
  origin = codes "http://ex";
}

trusting : Storage
trusting = trust_insecure_host hosts_codec (codes "http://ex") storage

trusts : is_trusted_insecure_host hosts_codec (codes "http://ex") trusting ≡ true
unfolding trusting
trusts =
    is_trusted-trust hosts_codec (codes "http://ex") (codes "http://ex") storage [] refl
    ∙ ground (arith, same_refl (codes "http://ex"))

submits :
    (submit hosts_codec parse_url page trusting).2 ≡ some (target_of hosts_codec parse_url page url)
unfolding submit parsed same
submits = rw (trusts) refl

submit_secure_example :
    (u : Url) × (parsed hosts_codec parse_url page.url ≡ some u)
    × (target_of hosts_codec parse_url page url ≡ target_of hosts_codec parse_url page u)
    × ((same u.protocol (codes "http:") ≡ false)
        ⊎ (is_trusted_insecure_host hosts_codec u.origin trusting ≡ true))
submit_secure_example =
    submit_secure hosts_codec parse_url page trusting (target_of hosts_codec parse_url page url)
      submits

parses : parsed hosts_codec parse_url page.url ≡ some url
unfolding parsed same
parses = refl

submit-confirm_insecure_example :
    (submit hosts_codec parse_url page
      (confirm_insecure hosts_codec parse_url
        (record page { pending = some (target_of hosts_codec parse_url page url) })
        storage).1).2
    ≡ some (target_of hosts_codec parse_url page url)
submit-confirm_insecure_example =
    submit-confirm_insecure hosts_codec parse_url page storage url [] refl parses refl
