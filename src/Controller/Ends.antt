-- ===== src/Controller/Ends.antt =====
-- How the process of cmd/controller/main.go ends.
use aws_controllers_k8s_acm.Base.{ℕ, ◌≡◌, refl, some, List, [], ◌∷◌, ◌++◌}
use aws_controllers_k8s_acm.Go.{Outcome, ok, err, panic}
use aws_controllers_k8s_acm.Controller.{Runtime, Action, Outside, process}
use aws_controllers_k8s_acm.Controller.Stops.{ends_with, Went, Ran, process-Ran}
use aws_controllers_k8s_acm.Controller.Starts.{Started, process-eq-ok}

module _ (R : Runtime) (O : Outside R) where
  -- How the process ends, which has done what is in `s` since `t`.
  pub data Ended (t s : List (Action R)) : Outcome ℕ (Unit {0}) → Type 0 where
    returned : Went R O t s → Started R O t s → Ended t s (ok tt)
    exited :
        (status : ℕ) (u : List (Action R)) (c : Action R)
        → Went R O t u
        → ends_with R O c u ≡ some status
        → s ≡ u ++ (c ∷ [])
        → Ended t s (err status)

  ended :
      (t s : List (Action R)) (o : Outcome ℕ (Unit {0}))
      → Ran R O t (o, s)
      → process R O t ≡ (o, s)
      → Ended t s o
  ended t s (ok tt) r h = returned r (process-eq-ok R O t h)
  ended t s (err status) (u, c, w, e, p) h = exited status u c w e p
  ended t s panic r h = absurd r

  -- The process never panics. If it returns, it has added four groups to the scheme, read its flags,
  -- made a manager from what they and the calls before it answered, set up each webhook if the flags
  -- want that, bound the manager, added its two checks and started it, in this order, and nothing
  -- failed but set-ups of webhooks and additions to the scheme. If it exits, then with the status of
  -- its last action, which is the first other one that failed.
  pub process_ends : (t : List (Action R)) → Ended t (process R O t).1 (process R O t).0
  process_ends t = ended t (process R O t).1 (process R O t).0 (process-Ran R O t) refl
