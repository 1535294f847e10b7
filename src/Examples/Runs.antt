-- ===== src/Examples/Runs.antt =====
-- The stored values, the links that are chosen, and the requests that follow.
use gourl.Common.{true, false, if◌then◌else◌, none, some, List, [], ◌∷◌, Text, codes, includes, ◌≡◌}
use gourl.Api.Types.{resolved}
use gourl.Api.Request.{Init, get, IsAddressed}
use gourl.Api.Endpoints.{delete_links}
use gourl.Auth.Connect.{Connect, Target, connect, probed}
use gourl.Auth.Session.{connect-IsAddressed, config_of, sends, accepted}
use gourl.LocalStorage
use gourl.LocalStorage.{blank, replay}
use gourl.LocalStorage.Refinement.{Implements, run-Implements, empty-Implements}
use gourl.Links.{initial}
use gourl.Links.Choice
use gourl.Links.Choice.{choose_all, distinct}
use gourl.Links.Controls.{call_of, bulk_confirmed}
use gourl.Links.Deletion.{call_of-run}
use gourl.Examples.Values.{storage, server, server_codec, hosts_codec}

abbrev store_ops : List LocalStorage.Op
store_ops =
    LocalStorage.connected (some server)
    ∷ LocalStorage.trusted (codes "http://a")
    ∷ LocalStorage.theme_clicked
    ∷ LocalStorage.feeling false
    ∷ []

run-Implements_example :
    Implements server_codec hosts_codec
      (LocalStorage.run server_codec hosts_codec store_ops (λ k. none))
      (replay store_ops blank)
run-Implements_example =
    run-Implements server_codec hosts_codec store_ops (λ k. none) blank
      (empty-Implements server_codec hosts_codec)

abbrev ticks : List Choice.Op
ticks =
    Choice.header_ticked (codes "a" ∷ codes "b" ∷ []) true
    ∷ Choice.next_clicked
    ∷ Choice.row_ticked (codes "a") false
    ∷ []

call_of-run_example :
    (cs : List Text) × (call_of bulk_confirmed (Choice.run ticks initial) ≡ some (delete_links cs))
    × (distinct cs ≡ true)
    × ((c : Text) → includes cs c ≡ choose_all ticks (λ d. false) c)
call_of-run_example = call_of-run ticks

abbrev target : Target
target = record { origin = codes "http://ex"; token = codes "tok" }

abbrev page : Connect
page = record { url = codes "http://ex/x"; token = codes "tok"; busy = false; pending = none }

abbrev get_init : Init
get_init = record { method = get; headers = []; is_form = false }

connect-IsAddressed_example :
    IsAddressed
      (config_of target)
      (codes "/x")
      (sends server_codec (connect server_codec target (page, storage)).1 (codes "/x") get_init)
    × IsAddressed (if accepted (resolved true) then config_of target else none) (codes "/x") (
        sends server_codec
          (probed server_codec (resolved true) (connect server_codec target (page, storage))).1
          (codes "/x")
          get_init)
connect-IsAddressed_example =
    connect-IsAddressed server_codec target (resolved true) page storage (codes "/x") get_init
