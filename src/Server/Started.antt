-- ===== src/Server/Started.antt =====
-- What holds when the service process begins to serve.
use connector_supabase.Common.{
  ℕ, ◌<◌, Option, none, some, String, List, [], ◌∷◌, ◌≡◌, refl, sym, ap, ◌∙◌, subst, All, Bytes,
  Result, ok, err, >>=-eq-ok, ok_or, map_err, ok-injective, arith, ltb, if◌then◌else◌,
}
use connector_supabase.Common.Decimal.{parse_u64}
use connector_supabase.Common.Numerals.{below, numeral, parse_u64-numeral}
use connector_supabase.External.{External}
use connector_supabase.Journal.Connect
use connector_supabase.Journal.Connect.{JournalConfig}
use connector_supabase.Reconciler.{ReconcileError, GraphEntry, World}
use connector_supabase.Reconciler.Resume.{resume}
use connector_supabase.Reconciler.Resumed.{IsResumed, resume-IsResumed}
use connector_supabase.Reconciler.Retired.{IsFiled}
use connector_supabase.Server.{
  Variables, StartError, logging, journal, uri, io, Platform, Settings, refused, parse_u16,
  string_env, required, read_port, journal_config, core_uri, state_dir, prepare, configure,
  controller, listen, resume_configured, start,
}

-- The variables that have no default.
abbrev pub required_names : List String
required_names = "S2_ACCESS_TOKEN" ∷ "S2_ACCOUNT_ENDPOINT" ∷ "S2_BASIN_ENDPOINT" ∷ "S2_BASIN" ∷ []

abbrev pub IsPresent : Variables → String → Type 0
IsPresent vars name = (value : String) × (vars name ≡ some value)

-- The text is the numeral of a port.
abbrev pub IsPort : String → ℕ → Type 0
IsPort text port = (below (numeral text) ≡ some port) × (port < 65536)

ok_or-eq-ok : {A E : Type 0} (o : Option A) (e : E) {a : A} → ok_or o e ≡ ok a → o ≡ some a
ok_or-eq-ok none e h = cc
ok_or-eq-ok (some x) e h = ap some (ok-injective h)

bounded :
    (o : Option ℕ) (port : ℕ)
    → elim o [ none ↦ none | some n ↦ if ltb n 65536 then some n else none ] ≡ some port
    → (o ≡ some port) × (port < 65536)
bounded none port h = cc
bounded (some n) port h = ground arith

parse_u16-IsPort : (text : String) (port : ℕ) → parse_u16 text ≡ some port → IsPort text port
unfolding parse_u16
parse_u16-IsPort text port h =
    let (e, l) = bounded (parse_u64 text) port h in (sym (parse_u64-numeral text) ∙ e, l)

module _ (vars : Variables) where
  required-IsPresent :
      (name : String) {value : String} → required vars name ≡ ok value → IsPresent vars name
  required-IsPresent name {value} h = (value, ok_or-eq-ok (vars name) _ h)

  journal_config-IsPresent :
      (config : JournalConfig)
      → journal_config vars ≡ ok config
      → All (IsPresent vars) required_names
  unfolding journal_config
  journal_config-IsPresent config h =
      let (a, (p, h₁)) = >>=-eq-ok (required vars "S2_ACCESS_TOKEN") _ h in
      let (b, (q, h₂)) = >>=-eq-ok (required vars "S2_ACCOUNT_ENDPOINT") _ h₁ in
      let (c, (r, h₃)) = >>=-eq-ok (required vars "S2_BASIN_ENDPOINT") _ h₂ in
      let (d, (s, h₄)) = >>=-eq-ok (required vars "S2_BASIN") _ h₃ in
      (
        required-IsPresent "S2_ACCESS_TOKEN" p,
        (
          required-IsPresent "S2_ACCOUNT_ENDPOINT" q,
          (required-IsPresent "S2_BASIN_ENDPOINT" r, (required-IsPresent "S2_BASIN" s, tt)),
        ),
      )

  abbrev pub port_text : String
  port_text = string_env vars "HENOSIS_SUPABASE_PORT" "5432"

  read_port-IsPort : (port : ℕ) → read_port vars ≡ ok port → IsPort port_text port
  unfolding read_port
  read_port-IsPort port h = parse_u16-IsPort port_text port (ok_or-eq-ok (parse_u16 port_text) _ h)

  module _ (platform : Platform) where
    configure-IsConfigured :
        (settings : Settings)
        → configure vars platform ≡ ok settings
        → All (IsPresent vars) required_names × IsPort port_text settings.target.port
    unfolding configure
    configure-IsConfigured settings h =
        let (_, (_, h₁)) = >>=-eq-ok (refused logging platform.init_logging) _ h in
        let (port, (p, h₂)) = >>=-eq-ok (read_port vars) _ h₁ in
        let (config, (j, h₃)) = >>=-eq-ok (journal_config vars) _ h₂ in
        let (opened, (_, h₄)) =
          >>=-eq-ok (map_err journal (Connect.connect platform.s2 config)) _ h₃ in
        let (_, (_, h₅)) = >>=-eq-ok (refused uri (platform.parse_uri (core_uri vars))) _ h₄ in
        let (_, (_, h₆)) = >>=-eq-ok (prepare vars platform (state_dir vars)) _ h₅ in
        (
          journal_config-IsPresent config j,
          subst (IsPort port_text) (ap (λ (s : Settings). s.target.port) (ok-injective h₆))
              (read_port-IsPort port p),
        )

    module _ (env : External) where
      listen-eq-ok :
          (settings ready : Settings) (r : Result ℕ ReconcileError × World)
          → (listen vars platform settings r).0 ≡ ok ready
          → (settings ≡ ready)
            × ((count : ℕ) × ((r.0 ≡ ok count) × ((listen vars platform settings r).1 ≡ r.1)))
      listen-eq-ok settings ready (ok count, world) h =
          let (_, (_, e)) =
            >>=-eq-ok (refused io (platform.bind (string_env vars "HENOSIS_BIND" "0.0.0.0:8082")))
              (λ _. ok settings) h in
          (ok-injective e, (count, (refl, refl)))
      listen-eq-ok settings ready (err error, world) h = cc

      -- Where the process begins to serve, the variables that have no default are set, the port is a
      -- decimal numeral below 2^16, and what the directory listed is resumed.
      pub record IsStarted (ready : Settings) (entries : List (Result GraphEntry String))
          (world : World) : Type 0 where
        pub named : All (IsPresent vars) required_names
        pub port : IsPort port_text ready.target.port
        pub resumed : All (IsResumed env (controller vars platform ready) world) entries

      resume-IsStarted :
          (settings : Settings) (world : World) (entries : List (Result GraphEntry String))
          (count : ℕ)
          → configure vars platform ≡ ok settings
          → ((g : Bytes) → IsFiled g world)
          → (controller vars platform settings).graph_entries world.trace ≡ ok entries
          → (resume env (controller vars platform settings) world).0 ≡ ok count
          → IsStarted settings entries (resume env (controller vars platform settings) world).1
      resume-IsStarted settings world entries count c filed e h =
          let (set, number) = configure-IsConfigured settings c in
          record {
            named = set;
            port = number;
            resumed =
                resume-IsResumed env (controller vars platform settings) world entries count filed e
                  h;
          }

      resume_configured-IsStarted :
          (configured : Result Settings StartError) (ready : Settings) (world : World)
          (entries : List (Result GraphEntry String))
          → configure vars platform ≡ configured
          → ((g : Bytes) → IsFiled g world)
          → (controller vars platform ready).graph_entries world.trace ≡ ok entries
          → (resume_configured vars platform env configured world).0 ≡ ok ready
          → IsStarted ready entries (resume_configured vars platform env configured world).1
      resume_configured-IsStarted (err error) ready world entries c filed e h = cc
      resume_configured-IsStarted (ok settings) ready world entries c filed e h =
          let outcome = resume env (controller vars platform settings) world in
          let (same, (count, (r, w))) = listen-eq-ok settings ready outcome h in
          let listed =
            subst (λ s. (controller vars platform s).graph_entries world.trace ≡ ok entries)
              (sym same) e in
          subst (λ s. IsStarted s entries (listen vars platform settings outcome).1) same
            (subst (IsStarted settings entries) (sym w)
              (resume-IsStarted settings world entries count c filed listed r))

      -- Where each checkpoint is its own graph's, and the process begins to serve, the variables that
      -- have no default are set, the text of the port is a decimal numeral below 2^16, and the graph
      -- of each checkpoint file that the directory listed is retired, or its slice of the retained
      -- digest is loaded and a pass of its retained sequence is scheduled.
      pub start-IsStarted :
          (world : World) (ready : Settings) (entries : List (Result GraphEntry String))
          → ((g : Bytes) → IsFiled g world)
          → (controller vars platform ready).graph_entries world.trace ≡ ok entries
          → (start vars platform env world).0 ≡ ok ready
          → IsStarted ready entries (start vars platform env world).1
      unfolding start
      start-IsStarted world ready entries filed e h =
          resume_configured-IsStarted (configure vars platform) ready world entries refl filed e h
