-- ===== src/Sdk/Metrics.antt =====
-- A call of the AWS API followed by `metrics.RecordAPICall`, as every handler makes it.
use aws_controllers_k8s_acm.Base.{
  ◌≡◌, ◌≢◌, refl, ◌∙◌, arith, any, Bool, false, String, Option, none, some, List, [], ◌∷◌, ◌++◌,
}
use aws_controllers_k8s_acm.Go.{Outcome, ok, err, panic, call}
use aws_controllers_k8s_acm.Go.Safe.{Safe}
use aws_controllers_k8s_acm.Go.Avoids.{calls, Avoids, call-Avoids}
use aws_controllers_k8s_acm.Sdk.{Errors, Call, record_api_call, GoM, Answer}

module _ (X : Errors) {A : Type 0} where
  abbrev recorded :
      String → String → Outcome X.Err A × List (Call X.Err) → Outcome X.Err A × List (Call X.Err)
  recorded op id (ok a, t) = (ok a, t ++ (record_api_call op id none ∷ []))
  recorded op id (err e, t) = (err e, t ++ (record_api_call op id (some e) ∷ []))
  recorded op id (panic, t) = (panic, t)

  -- `resp, err := c(ctx, input); metrics.RecordAPICall(op, id, err)`
  abbrev pub api_call : String → String → Call X.Err → Answer X A → GoM X A
  api_call op id c answer t = recorded op id (call c answer t)

  -- A call that succeeds leaves itself and its metric behind.
  pub api_call-ok :
      (op id : String) (c : Call X.Err) (answer : Answer X A) (t : List (Call X.Err)) {a : A}
      {t' : List (Call X.Err)}
      → api_call op id c answer t ≡ (ok a, t')
      → t' ≡ (t ++ (c ∷ [])) ++ (record_api_call op id none ∷ [])
  api_call-ok op id c answer t h = ground arith

  -- One that fails leaves its error in the metric.
  pub api_call-err :
      (op id : String) (c : Call X.Err) (answer : Answer X A) (t : List (Call X.Err)) {e : X.Err}
      {t' : List (Call X.Err)}
      → api_call op id c answer t ≡ (err e, t')
      → t' ≡ (t ++ (c ∷ [])) ++ (record_api_call op id (some e) ∷ [])
  api_call-err op id c answer t h = ground arith

  recorded-Avoids :
      (p : Call X.Err → Bool) (op id : String) (q : Outcome X.Err A × List (Call X.Err))
      → ((e : Option X.Err) → p (record_api_call op id e) ≡ false)
      → any p (calls (recorded op id q)) ≡ any p (calls q)
  recorded-Avoids p op id (ok a, t) h =
      call-Avoids {E = X.Err} p (record_api_call op id none) (λ _. ok a) (h none) t
  recorded-Avoids p op id (err e, t) h =
      call-Avoids {E = X.Err} {A = A} p (record_api_call op id (some e)) (λ _. err e) (h (some e)) t
  recorded-Avoids p op id (panic, t) h = refl

  pub api_call-Avoids :
      (p : Call X.Err → Bool) (op id : String) (c : Call X.Err) (answer : Answer X A)
      → p c ≡ false
      → ((e : Option X.Err) → p (record_api_call op id e) ≡ false)
      → Avoids p (api_call op id c answer)
  api_call-Avoids p op id c answer h g t =
      recorded-Avoids p op id (call c answer t) g ∙ call-Avoids p c answer h t

  -- What was returned is the answer.
  pub api_call-answer :
      (op id : String) (c : Call X.Err) (answer : Answer X A) (t : List (Call X.Err)) {a : A}
      {t' : List (Call X.Err)}
      → api_call op id c answer t ≡ (ok a, t')
      → answer t ≡ ok a
  api_call-answer op id c answer t h = ground arith

  recorded-ne :
      (op id : String) (q : Outcome X.Err A × List (Call X.Err))
      → q.0 ≢ panic
      → (recorded op id q).0 ≢ panic
  recorded-ne op id (ok a, t) h = λ p. ground arith
  recorded-ne op id (err e, t) h = λ p. ground arith
  recorded-ne op id (panic, t) h = h

  pub api_call-Safe :
      (op id : String) (c : Call X.Err) (answer : Answer X A)
      → ((t : List (Call X.Err)) → answer t ≢ panic)
      → Safe (api_call op id c answer)
  api_call-Safe op id c answer h t = recorded-ne op id (call c answer t) (h t)
