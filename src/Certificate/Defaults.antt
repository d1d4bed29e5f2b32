-- ===== src/Certificate/Defaults.antt =====
-- `setStatusDefaults` fills what is missing and touches nothing else.
use aws_controllers_k8s_acm.Base.{◌≡◌, arith}
use aws_controllers_k8s_acm.Api.{Certificate, arn_of}
use aws_controllers_k8s_acm.Certificate.{ResourceManager, set_status_defaults}

-- Applied again, with the same or another manager, the defaults change nothing.
pub set_status_defaults_idem :
    (rm other : ResourceManager) (ko : Certificate)
    → set_status_defaults other (set_status_defaults rm ko) ≡ set_status_defaults rm ko
unfolding set_status_defaults
set_status_defaults_idem rm other ko = ground arith

-- The ARN stays.
pub arn_of-set_status_defaults :
    (rm : ResourceManager) (ko : Certificate) → arn_of (set_status_defaults rm ko) ≡ arn_of ko
unfolding set_status_defaults
arn_of-set_status_defaults rm ko = ground arith
