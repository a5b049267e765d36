-- ===== src/Urn/Names/Parts.antt =====
-- resource-urn.ts: a name is read back by its colons.
use auto_ops.Prelude.{
  ◌≡◌, refl, sym, ap, ◌∙◌, Bool, true, false, not, ◌&&◌, String, List, [], ◌∷◌, ◌++◌, if◌then◌else◌,
  nat_eq, arith, All, All-map, All-append, codes,
}
use mathlib.Core.List.{append-nil, append_assoc}
use auto_ops.Prelude.Search.{starts_with, starts_with_before}
use auto_ops.Paging.{drop}
use auto_ops.Exec.{ok}
use auto_ops.Urn.{Text, is_allowed, sanitize_urn_segment}
use auto_ops.Urn.Segment.{IsSegment, sanitize_urn_segment-IsSegment}
use auto_ops.Urn.Names.{
  urn_of, replace_first, build_jenkins_job_urn, build_jenkins_build_urn,
  build_kubernetes_deployment_urn, build_kubernetes_namespace_urn,
}

-- The parts of a text between colons; the argument is the part that has begun.
split_from : Text → Text → List Text
split_from part [] = part ∷ []
split_from part (c ∷ s) =
    let ended = part ∷ split_from [] s in
    let begun = split_from (part ++ c ∷ []) s in if nat_eq c b':' then ended else begun

pub split_name : Text → List Text
unfolding split_from
split_name = split_from []

abbrev NoColon : Text → Type 0
NoColon = All (λ c. nat_eq c b':' ≡ false)

abbrev no_colon : Text → Bool
no_colon [] = true
no_colon (c ∷ s) = not (nat_eq c b':') && no_colon s

no_colon-NoColon : (s : Text) → no_colon s ≡ true → NoColon s
no_colon-NoColon [] h = tt
no_colon-NoColon (c ∷ s) h = (ground (arith, h), no_colon-NoColon s (ground (arith, h)))

split-append :
    (s rest part : Text) → NoColon s → split_from part (s ++ rest) ≡ split_from (part ++ s) rest
unfolding split_from
split-append [] rest part h = rw append-nil
split-append (c ∷ s) rest part (e, h) =
    rw e (split-append s rest (part ++ c ∷ []) h ∙ rw (append_assoc part (c ∷ []) s) refl)

split-end : (s : Text) → NoColon s → split_name s ≡ s ∷ []
unfolding split_name
split-end s h = ap split_name (sym (append-nil s)) ∙ split-append s [] [] h

split-part : (s rest : Text) → NoColon s → split_name (s ++ b':' ∷ rest) ≡ s ∷ split_name rest
unfolding split_name
split-part s rest h = split-append s (b':' ∷ rest) [] h

-- An allowed character is no colon.
allowed-NoColon : (s : Text) → IsSegment s → NoColon s
unfolding is_allowed
allowed-NoColon s h = All-map s (λ c ok_c. ground (arith, ok_c)) h.allowed

-- A part that names a kind and a thing.
thing-NoColon : (kind name : Text) → NoColon kind → NoColon name → NoColon (kind ++ b'/' ∷ name)
thing-NoColon kind name k n = All-append (λ c. nat_eq c b':' ≡ false) kind (b'/' ∷ name) k (refl, n)

literal : (s : String) → no_colon (codes s) ≡ true → NoColon (codes s)
literal s h = no_colon-NoColon (codes s) h

-- The name of a Kubernetes deployment is read back: between its colons stand the two fixed words, the
-- provider, the cluster, the namespace and the deployment, as they were sanitized.
pub build_kubernetes_deployment_urn-split :
    (cluster_slug namespace deployment_name s n d : Text)
    → sanitize_urn_segment cluster_slug ≡ ok s
    → sanitize_urn_segment namespace ≡ ok n
    → sanitize_urn_segment deployment_name ≡ ok d
    → (u : Text) × (build_kubernetes_deployment_urn cluster_slug namespace deployment_name ≡ ok u)
      × (split_name u
          ≡ codes "urn"
            ∷ codes "autoops"
            ∷ codes "kubernetes"
            ∷ s
            ∷ (codes "namespace" ++ b'/' ∷ n)
            ∷ (codes "deployment" ++ b'/' ∷ d)
            ∷ [])
unfolding build_kubernetes_deployment_urn build_kubernetes_namespace_urn
build_kubernetes_deployment_urn-split cluster_slug namespace deployment_name s n d hs hn hd =
    let segment_s = allowed-NoColon s (sanitize_urn_segment-IsSegment cluster_slug s hs) in
    let segment_n = allowed-NoColon n (sanitize_urn_segment-IsSegment namespace n hn) in
    let segment_d = allowed-NoColon d (sanitize_urn_segment-IsSegment deployment_name d hd) in
    let in_namespace : Text = codes "namespace" ++ b'/' ∷ n in
    let deployment : Text = codes "deployment" ++ b'/' ∷ d in
    let no_colon_n = thing-NoColon (codes "namespace") n (literal "namespace" refl) segment_n in
    let no_colon_d = thing-NoColon (codes "deployment") d (literal "deployment" refl) segment_d in
    let colon = λ (x y : Text). x ++ b':' ∷ y in
    let u = colon (codes "urn") (
      colon (codes "autoops")
        (colon (codes "kubernetes") (colon s (colon in_namespace deployment)))) in
    (
      u,
      rw (hs, hn, hd)
          (ap (λ (x : Text). ok x)
            (append_assoc (codes "urn:autoops:kubernetes:" ++ s) (b':' ∷ in_namespace)
              (b':' ∷ deployment))),
      split-part (codes "urn") _ (literal "urn" refl)
          ∙ ap (λ r. codes "urn" ∷ r)
              (split-part (codes "autoops") _ (literal "autoops" refl)
                ∙ ap (λ r. codes "autoops" ∷ r)
                    (split-part (codes "kubernetes") _ (literal "kubernetes" refl)
                      ∙ ap (λ r. codes "kubernetes" ∷ r)
                          (split-part s _ segment_s
                            ∙ ap (λ r. s ∷ r)
                                (split-part in_namespace deployment no_colon_n
                                  ∙ ap (λ r. in_namespace ∷ r)
                                      (split-end deployment no_colon_d))))),
    )

-- A replacement of a word that begins with a colon goes on behind what has no colon.
replace_first-append :
    (word by s rest : Text)
    → NoColon s
    → replace_first (b':' ∷ word) by (s ++ rest) ≡ s ++ replace_first (b':' ∷ word) by rest
unfolding replace_first starts_with
replace_first-append word by [] rest h = refl
replace_first-append word by (c ∷ s) rest (e, h) =
    rw e (ap (λ r. c ∷ r) (replace_first-append word by s rest h))

-- The job's name with its kind replaced.
replaced_job :
    (s n : Text)
    → NoColon s
    → starts_with s (codes "job/") ≡ false
    → replace_first (codes ":job/") (codes ":build/") (urn_of "jenkins" "job" s n)
      ≡ urn_of "jenkins" "build" s n
unfolding replace_first starts_with
replaced_job s n no_colon_s other =
    let behind : Text = codes "job" ++ b'/' ∷ n in
    let apart =
      starts_with_before s (codes "job/") behind b':' (refl, (refl, (refl, (refl, tt)))) ∙ other in
    rw apart (
      ap (λ r. codes "urn:autoops:jenkins:" ++ r)
        (replace_first-append (codes "job/") (codes ":build/") s (b':' ∷ behind) no_colon_s))

-- The name of a Jenkins build is the name of its job with the kind `build` and the number behind it,
-- whenever the instance's slug does not begin with `job/`.
pub build_jenkins_build_urn-names :
    (instance_slug job_name build_number s j n : Text)
    → sanitize_urn_segment instance_slug ≡ ok s
    → sanitize_urn_segment job_name ≡ ok j
    → sanitize_urn_segment build_number ≡ ok n
    → starts_with s (codes "job/") ≡ false
    → (build_jenkins_job_urn instance_slug job_name ≡ ok (urn_of "jenkins" "job" s j))
      × (build_jenkins_build_urn instance_slug job_name build_number
          ≡ ok (urn_of "jenkins" "build" s j ++ b'/' ∷ n))
unfolding build_jenkins_build_urn build_jenkins_job_urn
build_jenkins_build_urn-names instance_slug job_name build_number s j n hs hj hn other =
    let no_colon_s = allowed-NoColon s (sanitize_urn_segment-IsSegment instance_slug s hs) in
    (
      rw (hs, hj) refl,
      rw (hs, hj, hn) (ap (λ (r : Text). ok (r ++ b'/' ∷ n)) (replaced_job s j no_colon_s other)),
    )

-- A slug that begins with `job/` is itself taken for the kind: it loses that beginning, and the kind
-- stays `job`.
pub build_jenkins_build_urn-misnames :
    (instance_slug job_name build_number t j n : Text)
    → sanitize_urn_segment instance_slug ≡ ok (codes "job/" ++ t)
    → sanitize_urn_segment job_name ≡ ok j
    → sanitize_urn_segment build_number ≡ ok n
    → build_jenkins_build_urn instance_slug job_name build_number
      ≡ ok (codes "urn:autoops:jenkins:build/" ++ ((t ++ b':' ∷ (codes "job/" ++ j)) ++ b'/' ∷ n))
unfolding build_jenkins_build_urn build_jenkins_job_urn replace_first starts_with drop
build_jenkins_build_urn-misnames instance_slug job_name build_number t j n hs hj hn =
    rw (hs, hj, hn) refl
