-- ===== src/Controller/Stops.antt =====
-- Where the process of cmd/controller/main.go ends, if not in the manager: at the first failure.
use aws_controllers_k8s_acm.Base.{
  ℕ, Bool, true, false, if◌then◌else◌, ◌≡◌, refl, ◌⊎◌, inl, inr, Option, none, some, List, [], ◌∷◌,
  ◌++◌,
}
use aws_controllers_k8s_acm.Go.{Outcome, ok, err, panic, return, continue}
use aws_controllers_k8s_acm.Controller.{
  Config, Runtime, Action, Outside, add_to_scheme, parse_flags, validate, get_host_port,
  get_watch_namespaces, parse_watch_selectors, get_config_or_die, new_manager, setup_signal_handler,
  setup_webhook, bind_controller_manager, add_healthz_check, add_readyz_check, start, serve,
  clientgoscheme, svctypes, ackv1alpha1, acmpcaapitypes, Process, or_exit, exit_with, init,
  setup_webhooks, create_manager, run_manager, main, process,
}

module _ (R : Runtime) (O : Outside R) where
  abbrev failure : {A : Type 0} → R.Error ⊎ A → Option ℕ
  failure (inl e) = some 1
  failure (inr a) = none

  abbrev flag_failure : ℕ ⊎ Config → Option ℕ
  flag_failure (inl status) = some status
  flag_failure (inr cfg) = none

  -- The status with which an action ends the process, made after the actions before it: none if it
  -- succeeds, or if its errors are only logged.
  unfoldable pub ends_with : Action R → List (Action R) → Option ℕ
  ends_with (add_to_scheme g) t = none
  ends_with parse_flags t = flag_failure (O.flags t)
  ends_with (validate cfg gvks) t = failure (O.validated cfg gvks t)
  ends_with (get_host_port addr) t = failure (O.host_port addr t)
  ends_with (get_watch_namespaces cfg) t = failure (O.watch_namespaces cfg t)
  ends_with (parse_watch_selectors cfg) t = failure (O.watch_selectors cfg t)
  ends_with get_config_or_die t = failure (O.rest_config t)
  ends_with (new_manager c o) t = failure (O.manager c o t)
  ends_with setup_signal_handler t = none
  ends_with (setup_webhook w mgr) t = none
  ends_with (bind_controller_manager fs mgr cfg) t = failure (O.bound fs mgr cfg t)
  ends_with (add_healthz_check mgr n) t = failure (O.healthz_added mgr n t)
  ends_with (add_readyz_check mgr n) t = failure (O.readyz_added mgr n t)
  ends_with (start mgr) t = failure (O.started mgr t)

  -- From the actions `t`, by actions that do not end the process.
  pub data Went (t : List (Action R)) : List (Action R) → Type 0 where
    here : Went t t
    then_ :
        {s : List (Action R)}
        → Went t s
        → (c : Action R) → ends_with c s ≡ none
        → Went t (s ++ (c ∷ []))

  -- A part of the process that starts after `t` returns, or ends the process with the status of
  -- its last action, which is the first that failed.
  abbrev pub Ran : {A : Type 0} → List (Action R) → Outcome ℕ A × List (Action R) → Type 0
  Ran t (ok a, s) = Went t s
  Ran t (err status, s) =
      (u : List (Action R)) × (c : Action R) × Went t u
      × (ends_with c u ≡ some status)
      × (s ≡ u ++ (c ∷ []))
  Ran t (panic, s) = ⊥

  Went-trans : {t s u : List (Action R)} → Went t s → Went s u → Went t u
  Went-trans w here = w
  Went-trans w (then_ v c e) = then_ (Went-trans w v) c e

  Ran-after :
      {A : Type 0} {t s : List (Action R)} (q : Outcome ℕ A × List (Action R))
      → Went t s
      → Ran s q
      → Ran t q
  Ran-after (ok a, u) w r = Went-trans w r
  Ran-after (err status, u) w (v, c, x, e, p) = (v, c, Went-trans w x, e, p)
  Ran-after (panic, u) w r = r

  abbrev Stops : {A : Type 0} → Process R A → Type 0
  Stops m = (t : List (Action R)) → Ran t (m t)

  continue-Ran :
      {A B : Type 0} (f : A → Process R B) (t : List (Action R)) (q : Outcome ℕ A × List (Action R))
      → Ran t q
      → ((a : A) → Stops (f a))
      → Ran t (continue f q)
  continue-Ran f t (ok a, s) r h = Ran-after (f a s) r (h a s)
  continue-Ran f t (err status, s) r h = r
  continue-Ran f t (panic, s) r h = r

  -- An action whose failure ends the process, and what comes after it.
  then_checked :
      {A B : Type 0} (f : A → Process R B) {t : List (Action R)} (c : Action R)
      (s : List (Action R)) (a : R.Error ⊎ A)
      → ends_with c s ≡ failure a
      → Went t s
      → ((b : A) → Went t (s ++ (c ∷ [])) → Ran t (f b (s ++ (c ∷ []))))
      → Ran t (continue f (or_exit R a, s ++ (c ∷ [])))
  then_checked f c s (inl e) h w g = (s, c, w, h, refl)
  then_checked f c s (inr b) h w g = g b (then_ w c h)

  last_checked :
      {A : Type 0} {t : List (Action R)} (c : Action R) (s : List (Action R)) (a : R.Error ⊎ A)
      → ends_with c s ≡ failure a
      → Went t s
      → Ran t (or_exit R a, s ++ (c ∷ []))
  last_checked c s (inl e) h w = (s, c, w, h, refl)
  last_checked c s (inr b) h w = then_ w c h

  flags-Ran :
      (s : List (Action R)) (a : ℕ ⊎ Config)
      → ends_with parse_flags s ≡ flag_failure a
      → Ran s (exit_with R O a, s ++ (parse_flags ∷ []))
  flags-Ran s (inl status) h = (s, parse_flags, here, h, refl)
  flags-Ran s (inr cfg) h = then_ here parse_flags h

  init-Stops : Stops (init R)
  unfolding init ends_with
  init-Stops t =
      then_
        (then_
          (then_ (then_ here (add_to_scheme clientgoscheme) refl) (add_to_scheme svctypes) refl)
          (add_to_scheme ackv1alpha1) refl)
        (add_to_scheme acmpcaapitypes) refl

  setup_webhooks-Stops : (mgr : R.Manager) (ws : List R.Webhook) → Stops (setup_webhooks R mgr ws)
  unfolding setup_webhooks ends_with
  setup_webhooks-Stops mgr [] t = here
  setup_webhooks-Stops mgr (w ∷ ws) t =
      Ran-after (setup_webhooks R mgr ws (t ++ (setup_webhook w mgr ∷ [])))
        (then_ here (setup_webhook w mgr) refl) (setup_webhooks-Stops mgr ws _)

  maybe_webhooks-Stops :
      (b : Bool) (mgr : R.Manager)
      → Stops (if b then setup_webhooks R mgr R.webhooks else return tt)
  maybe_webhooks-Stops true mgr t = setup_webhooks-Stops mgr R.webhooks t
  maybe_webhooks-Stops false mgr t = here

  create_manager-Stops : (cfg : Config) → Stops (create_manager R O cfg)
  unfolding create_manager ends_with
  create_manager-Stops cfg t = then_checked _ _ _ (O.validated cfg _ _) refl here (λ _ w0.
      then_checked _ _ _ (O.host_port _ _) refl w0 (λ (host, port) w1.
        then_checked _ _ _ (O.watch_namespaces _ _) refl w1 (λ namespaces w2.
          then_checked _ _ _ (O.watch_selectors _ _) refl w2 (λ selectors w3.
            then_checked _ _ _ (O.rest_config _) refl w3
              (λ c w4. last_checked _ _ (O.manager _ _ _) refl w4)))))

  serve-Stops : (cfg : Config) (mgr : R.Manager) → Stops (serve R O cfg mgr)
  unfolding serve ends_with
  serve-Stops cfg mgr t = then_checked _ _ _ (O.bound _ mgr cfg _) refl here (λ _ w0.
      then_checked _ _ _ (O.healthz_added mgr _ _) refl w0 (λ _ w1.
        then_checked _ _ _ (O.readyz_added mgr _ _) refl w1
          (λ _ w2. last_checked _ _ (O.started mgr _) refl w2)))

  run_manager-Stops : (cfg : Config) (mgr : R.Manager) → Stops (run_manager R O cfg mgr)
  unfolding run_manager ends_with
  run_manager-Stops cfg mgr t =
      let s = t ++ (setup_signal_handler ∷ []) in
      Ran-after _ (then_ here setup_signal_handler refl) (
        continue-Ran (λ _. serve R O cfg mgr) s _
          (maybe_webhooks-Stops cfg.enable_webhook_server mgr s) (λ _. serve-Stops cfg mgr))

  main-Stops : Stops (main R O)
  unfolding main ends_with
  main-Stops t = continue-Ran _ t _ (flags-Ran t (O.flags t) refl) (λ cfg s.
      continue-Ran (run_manager R O cfg) s (create_manager R O cfg s) (create_manager-Stops cfg s)
        (run_manager-Stops cfg))

  pub process-Ran : (t : List (Action R)) → Ran t (process R O t)
  unfolding process
  process-Ran t = continue-Ran (λ _. main R O) t (init R t) (init-Stops t) (λ _. main-Stops)
