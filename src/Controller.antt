-- ===== src/Controller.antt =====
-- The entry point: cmd/controller/main.go. Other modules of the program come in as the managers'
-- factories; flags, the runtime of controllers and the API server are outside. `os.Exit` is an
-- error of the process, which is its status. Logging is left out.
pub mod Stops
pub mod Starts
pub mod Ends
use aws_controllers_k8s_acm.Base.{
  ℕ, String, Bool, if◌then◌else◌, ◌<>◌, ◌⊎◌, inl, inr, List, [], ◌∷◌, map,
}
use aws_controllers_k8s_acm.GoMap.{GoMap, insert}
use aws_controllers_k8s_acm.Go.{Outcome, ok, err, Go, return, call, ◌>>=◌, ◌>>◌}

-- What `main` reads of `ackcfg.Config`.
pub record Config : Type 0 where
  pub webhook_server_addr : String
  pub metrics_addr : String
  pub enable_leader_election : Bool
  pub leader_election_namespace : String
  pub healthz_addr : String
  pub enable_webhook_server : Bool

-- The types of other modules, with the factories of the registry, the registered webhooks,
-- `mf.ResourceDescriptor().GroupVersionKind()` and `ctrlrtcache.Config{}`.
pub record Runtime : Type 1 where
  pub Error : Type 0
  pub Factory : Type 0
  pub GroupVersionKind : Type 0
  pub Webhook : Type 0
  pub Port : Type 0
  pub CacheConfig : Type 0
  pub Selector : Type 0
  pub RestConfig : Type 0
  pub Manager : Type 0
  pub manager_factories : List Factory
  pub group_version_kind : Factory → GroupVersionKind
  pub webhooks : List Webhook
  pub cache_config : CacheConfig

-- The packages whose types `init` adds to the scheme.
pub data ApiGroup : Type 0 where
  clientgoscheme svctypes ackv1alpha1 acmpcaapitypes : ApiGroup

abbrev pub aws_service_api_group : String
aws_service_api_group = "acm.services.k8s.aws"

module _ (R : Runtime) where
  -- `ctrlrt.Options`; the scheme is one global.
  pub record Options : Type 0 where
    pub default_namespaces : GoMap R.CacheConfig
    pub default_label_selector : R.Selector
    pub port : R.Port
    pub host : String
    pub bind_address : String
    pub leader_election : Bool
    pub leader_election_id : String
    pub leader_election_namespace : String
    pub health_probe_bind_address : String
    pub liveness_endpoint_name : String
    pub readiness_endpoint_name : String

  -- The calls of the outside. `parse_flags` stands for `BindFlags`, `flag.Parse` and `SetupLogger`.
  pub data Action : Type 0 where
    add_to_scheme : ApiGroup → Action
    parse_flags : Action
    validate : Config → List R.GroupVersionKind → Action
    get_host_port : String → Action
    get_watch_namespaces : Config → Action
    parse_watch_selectors : Config → Action
    get_config_or_die : Action
    new_manager : R.RestConfig → Options → Action
    setup_signal_handler : Action
    setup_webhook : R.Webhook → R.Manager → Action
    bind_controller_manager : List R.Factory → R.Manager → Config → Action
    add_healthz_check : R.Manager → String → Action
    add_readyz_check : R.Manager → String → Action
    start : R.Manager → Action

  -- What the calls answer, after the calls before them: an error, or what they return. `flags` may
  -- end the process with a status of its own.
  pub record Outside : Type 0 where
    pub flags : List Action → ℕ ⊎ Config
    pub validated : Config → List R.GroupVersionKind → List Action → R.Error ⊎ Unit {0}
    pub host_port : String → List Action → R.Error ⊎ (String × R.Port)
    pub watch_namespaces : Config → List Action → R.Error ⊎ List String
    pub watch_selectors : Config → List Action → R.Error ⊎ R.Selector
    pub rest_config : List Action → R.Error ⊎ R.RestConfig
    pub manager : R.RestConfig → Options → List Action → R.Error ⊎ R.Manager
    pub webhook_set_up : R.Webhook → R.Manager → List Action → R.Error ⊎ Unit {0}
    pub bound : List R.Factory → R.Manager → Config → List Action → R.Error ⊎ Unit {0}
    pub healthz_added : R.Manager → String → List Action → R.Error ⊎ Unit {0}
    pub readyz_added : R.Manager → String → List Action → R.Error ⊎ Unit {0}
    pub started : R.Manager → List Action → R.Error ⊎ Unit {0}

  abbrev pub Process : Type 0 → Type 0
  Process = Go Action ℕ

  -- `if err != nil { os.Exit(1) }`
  abbrev pub or_exit : {A : Type 0} → R.Error ⊎ A → Outcome ℕ A
  or_exit (inl e) = err 1
  or_exit (inr a) = ok a

  abbrev pub checked : {A : Type 0} → Action → (List Action → R.Error ⊎ A) → Process A
  checked c answer = call c (λ t. or_exit (answer t))

  -- A call whose error, if it has one, is logged at most.
  abbrev pub logged : Action → Process (Unit {0})
  logged c = call c (λ t. ok tt)

  unfoldable pub init : Process (Unit {0})
  init = do
    logged (add_to_scheme clientgoscheme)
    logged (add_to_scheme svctypes)
    logged (add_to_scheme ackv1alpha1)
    logged (add_to_scheme acmpcaapitypes)

  -- `for _, namespace := range namespaces { watchNamespaces[namespace] = ctrlrtcache.Config{} }`
  unfoldable pub watched : List String → GoMap R.CacheConfig → GoMap R.CacheConfig
  watched [] m = m
  watched (namespace ∷ rest) m = watched rest (insert namespace R.cache_config m)

  unfoldable pub manager_options : Config → String → R.Port → List String → R.Selector → Options
  manager_options cfg host port namespaces selectors = record {
    default_namespaces = watched namespaces [];
    default_label_selector = selectors;
    port = port;
    host = host;
    bind_address = cfg.metrics_addr;
    leader_election = cfg.enable_leader_election;
    leader_election_id = "ack-" <> aws_service_api_group;
    leader_election_namespace = cfg.leader_election_namespace;
    health_probe_bind_address = cfg.healthz_addr;
    liveness_endpoint_name = "/healthz";
    readiness_endpoint_name = "/readyz";
  }

  -- `for _, webhook := range webhooks { if err := webhook.Setup(mgr); err != nil { log } }`
  unfoldable pub setup_webhooks : R.Manager → List R.Webhook → Process (Unit {0})
  setup_webhooks mgr [] = return tt
  setup_webhooks mgr (webhook ∷ rest) =
      logged (setup_webhook webhook mgr) >> setup_webhooks mgr rest

  module _ (O : Outside) where
    abbrev pub exit_with : ℕ ⊎ Config → Outcome ℕ Config
    exit_with (inl status) = err status
    exit_with (inr cfg) = ok cfg

    -- Lines 64 to 143: up to `ctrlrt.NewManager`.
    unfoldable pub create_manager : Config → Process R.Manager
    create_manager cfg = do
      let gvks = map R.group_version_kind R.manager_factories
      checked (validate cfg gvks) (O.validated cfg gvks)
      (host, port) ←
          checked (get_host_port cfg.webhook_server_addr) (O.host_port cfg.webhook_server_addr)
      namespaces ← checked (get_watch_namespaces cfg) (O.watch_namespaces cfg)
      selectors ← checked (parse_watch_selectors cfg) (O.watch_selectors cfg)
      rest_config ← checked get_config_or_die O.rest_config
      let options = manager_options cfg host port namespaces selectors
      checked (new_manager rest_config options) (O.manager rest_config options)

    -- From `BindControllerManager` to the end.
    unfoldable pub serve : Config → R.Manager → Process (Unit {0})
    serve cfg mgr = do
      checked (bind_controller_manager R.manager_factories mgr cfg)
          (O.bound R.manager_factories mgr cfg)
      checked (add_healthz_check mgr "health") (O.healthz_added mgr "health")
      checked (add_readyz_check mgr "check") (O.readyz_added mgr "check")
      checked (start mgr) (O.started mgr)

    -- From `SetupSignalHandler` to the end.
    unfoldable pub run_manager : Config → R.Manager → Process (Unit {0})
    run_manager cfg mgr = do
      logged setup_signal_handler
      if cfg.enable_webhook_server then setup_webhooks mgr R.webhooks else return tt
      serve cfg mgr

    unfoldable pub main : Process (Unit {0})
    main = do
      cfg ← call parse_flags (λ t. exit_with (O.flags t))
      mgr ← create_manager cfg
      run_manager cfg mgr

    -- The whole process: packages are initialised before `main`.
    unfoldable pub process : Process (Unit {0})
    process = init >> main
