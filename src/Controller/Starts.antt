-- ===== src/Controller/Starts.antt =====
-- What the process of cmd/controller/main.go has done when it returns.
use aws_controllers_k8s_acm.Base.{
  ℕ, String, Bool, true, false, if◌then◌else◌, ◌≡◌, refl, sym, ◌∙◌, ap, ◌⊎◌, inl, inr, none, some,
  List, [], ◌∷◌, ◌++◌, map, arith, contains,
}
use aws_controllers_k8s_acm.GoMap.{GoMap, lookup, insert, lookup-nil, lookup-insert}
use aws_controllers_k8s_acm.Go.{Outcome, ok, return, continue, continue-eq-ok}
use aws_controllers_k8s_acm.Controller.{
  Config, Runtime, Action, Outside, add_to_scheme, parse_flags, validate, get_host_port,
  get_watch_namespaces, parse_watch_selectors, get_config_or_die, new_manager, manager_options,
  setup_signal_handler, setup_webhook, bind_controller_manager, add_healthz_check, add_readyz_check,
  start, serve, clientgoscheme, svctypes, ackv1alpha1, acmpcaapitypes, Process, or_exit, watched,
  exit_with, init, setup_webhooks, create_manager, run_manager, main, process,
}

module _ (R : Runtime) (O : Outside R) where
  -- One more action.
  infixl 5 ◌▸◌
  abbrev ◌▸◌ : List (Action R) → Action R → List (Action R)
  t ▸ c = t ++ (c ∷ [])

  abbrev gvks : List R.GroupVersionKind
  gvks = map R.group_version_kind R.manager_factories

  abbrev booted : List (Action R) → List (Action R)
  booted t =
      t
      ▸ add_to_scheme clientgoscheme
      ▸ add_to_scheme svctypes
      ▸ add_to_scheme ackv1alpha1
      ▸ add_to_scheme acmpcaapitypes

  abbrev webhooks_set_up : R.Manager → List R.Webhook → List (Action R) → List (Action R)
  webhooks_set_up mgr [] t = t
  webhooks_set_up mgr (w ∷ ws) t = webhooks_set_up mgr ws (t ▸ setup_webhook w mgr)

  -- A manager was made after `t`, from what the calls before it answered.
  pub record Created (cfg : Config) (mgr : R.Manager) (t t' : List (Action R)) : Type 0 where
    pub host : String
    pub port : R.Port
    pub namespaces : List String
    pub selectors : R.Selector
    pub rest_config : R.RestConfig
    pub address : O.host_port cfg.webhook_server_addr (t ▸ validate cfg gvks) ≡ inr (host, port)
    pub watching :
        O.watch_namespaces cfg (t ▸ validate cfg gvks ▸ get_host_port cfg.webhook_server_addr)
        ≡ inr namespaces
    pub selecting :
        O.watch_selectors cfg
          (t ▸ validate cfg gvks ▸ get_host_port cfg.webhook_server_addr ▸ get_watch_namespaces cfg)
        ≡ inr selectors
    pub configured :
        O.rest_config (
          t
          ▸ validate cfg gvks
          ▸ get_host_port cfg.webhook_server_addr
          ▸ get_watch_namespaces cfg
          ▸ parse_watch_selectors cfg)
        ≡ inr rest_config
    pub made :
        O.manager rest_config (manager_options R cfg host port namespaces selectors) (
          t
          ▸ validate cfg gvks
          ▸ get_host_port cfg.webhook_server_addr
          ▸ get_watch_namespaces cfg
          ▸ parse_watch_selectors cfg
          ▸ get_config_or_die)
        ≡ inr mgr
    -- The manager watches the namespaces that were named.
    pub watches :
        (n : String)
        → lookup n ((manager_options R cfg host port namespaces selectors).default_namespaces)
          ≡ (if contains namespaces n then some R.cache_config else none)
    pub actions :
        t'
        ≡ t
          ▸ validate cfg gvks
          ▸ get_host_port cfg.webhook_server_addr
          ▸ get_watch_namespaces cfg
          ▸ parse_watch_selectors cfg
          ▸ get_config_or_die
          ▸ new_manager rest_config (manager_options R cfg host port namespaces selectors)

  -- The manager was bound, given its checks and started after `t`.
  abbrev pub Served : Config → R.Manager → List (Action R) → List (Action R) → Type 0
  Served cfg mgr t t' =
      t'
      ≡ t
        ▸ bind_controller_manager R.manager_factories mgr cfg
        ▸ add_healthz_check mgr "health"
        ▸ add_readyz_check mgr "check"
        ▸ start mgr

  -- What is done between `t` and `t'` when the process returns.
  pub record Started (t t' : List (Action R)) : Type 0 where
    pub cfg : Config
    pub mgr : R.Manager
    pub middle : List (Action R)
    pub flags : O.flags (booted t) ≡ inr cfg
    pub created : Created cfg mgr (booted t ▸ parse_flags) middle
    pub served :
        Served cfg mgr
          (let s = middle ▸ setup_signal_handler in
            if cfg.enable_webhook_server then webhooks_set_up mgr R.webhooks s else s)
          t'

  lookup-watched :
      (n : String) (ns : List String) (m : GoMap R.CacheConfig)
      → lookup n (watched R ns m) ≡ (if contains ns n then some R.cache_config else lookup n m)
  unfolding watched
  lookup-watched n [] m = refl
  lookup-watched n (k ∷ ns) m =
      lookup-watched n ns (insert k R.cache_config m)
      ∙ ground (arith, lookup-insert n k R.cache_config m)

  checked-eq-ok :
      {A B : Type 0} (f : A → Process R B) (a : R.Error ⊎ A) (s : List (Action R)) {b : B}
      {t : List (Action R)}
      → continue f (or_exit R a, s) ≡ (ok b, t)
      → (x : A) × (a ≡ inr x) × (f x s ≡ (ok b, t))
  checked-eq-ok f (inl e) s h = absurd (ground arith)
  checked-eq-ok f (inr x) s h = (x, refl, h)

  or_exit-eq-ok :
      {A : Type 0} (a : R.Error ⊎ A) (s : List (Action R)) {b : A} {t : List (Action R)}
      → ◌≡◌ {A = Outcome ℕ A × List (Action R)} (or_exit R a, s) (ok b, t)
      → (a ≡ inr b) × (s ≡ t)
  or_exit-eq-ok (inl e) s h = absurd (ground arith)
  or_exit-eq-ok (inr x) s h = ground arith

  flags-eq-ok :
      (a : ℕ ⊎ Config) (s : List (Action R)) {b : Config} {t : List (Action R)}
      → ◌≡◌ {A = Outcome ℕ Config × List (Action R)} (exit_with R O a, s) (ok b, t)
      → (a ≡ inr b) × (s ≡ t)
  flags-eq-ok (inl e) s h = absurd (ground arith)
  flags-eq-ok (inr x) s h = ground arith

  create_manager-eq-ok :
      (cfg : Config) (t : List (Action R)) {mgr : R.Manager} {t' : List (Action R)}
      → create_manager R O cfg t ≡ (ok mgr, t')
      → Created cfg mgr t t'
  unfolding create_manager
  create_manager-eq-ok cfg t h =
      let (_, e0, h0) = checked-eq-ok _ (O.validated cfg _ _) _ h in
      let ((host, port), e1, h1) = checked-eq-ok _ (O.host_port _ _) _ h0 in
      let (namespaces, e2, h2) = checked-eq-ok _ (O.watch_namespaces _ _) _ h1 in
      let (selectors, e3, h3) = checked-eq-ok _ (O.watch_selectors _ _) _ h2 in
      let (c, e4, h4) = checked-eq-ok _ (O.rest_config _) _ h3 in
      let (e5, h5) = or_exit-eq-ok (O.manager c _ _) _ h4 in
      record {
        host = host;
        port = port;
        namespaces = namespaces;
        selectors = selectors;
        rest_config = c;
        address = e1;
        watching = e2;
        selecting = e3;
        configured = e4;
        made = e5;
        watches = λ n.
            unfold manager_options in
            lookup-watched n namespaces []
            ∙ ap (λ o. if contains namespaces n then some R.cache_config else o) (lookup-nil n);
        actions = sym h5;
      }

  serve-eq-ok :
      (cfg : Config) (mgr : R.Manager) (t : List (Action R)) {t' : List (Action R)}
      → serve R O cfg mgr t ≡ (ok tt, t')
      → Served cfg mgr t t'
  unfolding serve
  serve-eq-ok cfg mgr t h =
      let (_, e0, h0) = checked-eq-ok _ (O.bound _ mgr cfg _) _ h in
      let (_, e1, h1) = checked-eq-ok _ (O.healthz_added mgr _ _) _ h0 in
      let (_, e2, h2) = checked-eq-ok _ (O.readyz_added mgr _ _) _ h1 in
      sym ((or_exit-eq-ok (O.started mgr _) _ h2).1)

  setup_webhooks_lem :
      (mgr : R.Manager) (ws : List R.Webhook) (t : List (Action R))
      → setup_webhooks R mgr ws t ≡ (ok tt, webhooks_set_up mgr ws t)
  unfolding setup_webhooks
  setup_webhooks_lem mgr [] t = refl
  setup_webhooks_lem mgr (w ∷ ws) t = setup_webhooks_lem mgr ws (t ▸ setup_webhook w mgr)

  maybe_webhooks_lem :
      (b : Bool) (mgr : R.Manager) (t : List (Action R))
      → (if b then setup_webhooks R mgr R.webhooks else return tt) t
        ≡ (ok tt, if b then webhooks_set_up mgr R.webhooks t else t)
  maybe_webhooks_lem true mgr t = setup_webhooks_lem mgr R.webhooks t
  maybe_webhooks_lem false mgr t = refl

  run_manager-eq-ok :
      (cfg : Config) (mgr : R.Manager) (t : List (Action R)) {t' : List (Action R)}
      → run_manager R O cfg mgr t ≡ (ok tt, t')
      → Served cfg mgr
          (let s = t ▸ setup_signal_handler in
            if cfg.enable_webhook_server then webhooks_set_up mgr R.webhooks s else s)
          t'
  unfolding run_manager
  run_manager-eq-ok cfg mgr t h = serve-eq-ok cfg mgr _ (
      sym (
        ap (continue (λ _. serve R O cfg mgr))
          (maybe_webhooks_lem cfg.enable_webhook_server mgr (t ▸ setup_signal_handler)))
      ∙ h)

  created_after :
      (cfg : Config) {mgr : R.Manager} {t s s' : List (Action R)}
      → t ≡ s
      → create_manager R O cfg s ≡ (ok mgr, s')
      → Created cfg mgr t s'
  created_after cfg {s = s} p h = rw p (create_manager-eq-ok cfg s h)

  pub process-eq-ok :
      (t : List (Action R)) {t' : List (Action R)} → process R O t ≡ (ok tt, t') → Started t t'
  unfolding process init main
  process-eq-ok t h =
      let (cfg, s, e0, h0) = continue-eq-ok _ (exit_with R O (O.flags (booted t)), _) h in
      let (f, p) = flags-eq-ok (O.flags (booted t)) _ e0 in
      let (mgr, u, e1, h1) = continue-eq-ok (run_manager R O cfg) (create_manager R O cfg s) h0 in
      record {
        cfg = cfg;
        mgr = mgr;
        middle = u;
        flags = f;
        created = created_after cfg p e1;
        served = run_manager-eq-ok cfg mgr u h1;
      }
