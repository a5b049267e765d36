-- ===== src/Urn/Tests.antt =====
-- Names of a few resources.
use auto_ops.Prelude.{◌≡◌, refl, [], ◌∷◌, ◌++◌, codes}
use auto_ops.Errors.{plain}
use auto_ops.Exec.{ok, err}
use auto_ops.Urn.{Text, sanitize_urn_segment}
use auto_ops.Urn.Segment.{IsSegment, sanitize_urn_segment-IsSegment}
use auto_ops.Urn.Names.{build_kubernetes_deployment_urn}
use auto_ops.Urn.Names.Parts.{split_name, build_kubernetes_deployment_urn-split}

cleans : sanitize_urn_segment (codes "  My--App: v1.0 (prod)/ ") ≡ ok (codes "my-app-v1.0-prod")
unfolding sanitize_urn_segment
cleans = refl

refuses :
    sanitize_urn_segment (codes "api_KEY")
    ≡ err (plain "Resource URN segment looks secret-like and cannot be used.")
unfolding sanitize_urn_segment
refuses = refl

sanitize_urn_segment-IsSegment_example : IsSegment (codes "my-app-v1.0-prod")
sanitize_urn_segment-IsSegment_example =
    sanitize_urn_segment-IsSegment (codes "  My--App: v1.0 (prod)/ ") (codes "my-app-v1.0-prod")
      cleans

build_kubernetes_deployment_urn-split_example :
    (u : Text) × (build_kubernetes_deployment_urn (codes "Main") (codes "web:prod") (codes "api")
      ≡ ok u)
    × (split_name u
        ≡ codes "urn"
          ∷ codes "autoops"
          ∷ codes "kubernetes"
          ∷ codes "main"
          ∷ (codes "namespace" ++ b'/' ∷ codes "web-prod")
          ∷ (codes "deployment" ++ b'/' ∷ codes "api")
          ∷ [])
unfolding sanitize_urn_segment
build_kubernetes_deployment_urn-split_example =
    build_kubernetes_deployment_urn-split (codes "Main") (codes "web:prod") (codes "api")
      (codes "main") (codes "web-prod") (codes "api") refl refl refl
