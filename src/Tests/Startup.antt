-- ===== src/Tests/Startup.antt =====
-- The process with two factories and a webhook that cannot be set up.
use aws_controllers_k8s_acm.Base.{
  ℕ, String, string_dec, true, false, ◌≡◌, refl, inl, inr, [], ◌∷◌, map,
}
use aws_controllers_k8s_acm.Go.{err}
use aws_controllers_k8s_acm.GoMap.{insert}
use aws_controllers_k8s_acm.Controller.{
  Config, Runtime, Outside, process, init, main, watched, manager_options, setup_webhooks,
  create_manager, run_manager, serve,
}
use aws_controllers_k8s_acm.Controller.Ends.{Ended, process_ends}

abbrev cluster : Runtime
cluster = record {
  Error = String;
  Factory = String;
  GroupVersionKind = String;
  Webhook = String;
  Port = ℕ;
  CacheConfig = Unit {0};
  Selector = ℕ;
  RestConfig = ℕ;
  Manager = ℕ;
  manager_factories = "Certificate" ∷ "CertificateAuthority" ∷ [];
  group_version_kind = λ f. f;
  webhooks = "acm" ∷ [];
  cache_config = tt;
}

abbrev flags : Config
flags = record {
  webhook_server_addr = "0.0.0.0:9433";
  metrics_addr = ":8080";
  enable_leader_election = false;
  leader_election_namespace = "";
  healthz_addr = ":8081";
  enable_webhook_server = true;
}

abbrev healthy : Outside cluster
healthy = record {
  flags = λ t. inr flags;
  validated = λ cfg gvks t. inr tt;
  host_port = λ addr t. inr ("0.0.0.0", 9433);
  watch_namespaces = λ cfg t. inr ("default" ∷ "prod" ∷ "default" ∷ []);
  watch_selectors = λ cfg t. inr 1;
  rest_config = λ t. inr 2;
  manager = λ c o t. inr 3;
  webhook_set_up = λ w mgr t. inl "no certificate";
  bound = λ fs mgr cfg t. inr tt;
  healthz_added = λ mgr n t. inr tt;
  readyz_added = λ mgr n t. inr tt;
  started = λ mgr t. inr tt;
}

abbrev unbound : Outside cluster
unbound = record healthy { bound = λ fs mgr cfg t. inl "no kind is registered" }

process_ends_example :
    Ended cluster unbound [] (process cluster unbound []).1 (process cluster unbound []).0
process_ends_example = process_ends cluster unbound []

-- Without its kinds the manager is not started.
unbound_run : (process cluster unbound []).0 ≡ err 1
unfolding process init main create_manager run_manager setup_webhooks serve watched manager_options
unbound_run = refl

-- A namespace that is named twice is watched once.
namespaces_run :
    map (λ e. e.0) (watched cluster ("default" ∷ "prod" ∷ "default" ∷ []) [])
    ≡ "default" ∷ "prod" ∷ []
unfolding watched insert string_dec
namespaces_run = refl
