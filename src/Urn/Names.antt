-- ===== src/Urn/Names.antt =====
-- resource-urn.ts: the names of resources of each provider.
pub mod Parts
use auto_ops.Prelude.{
  ℕ, zero, suc, Bool, true, false, String, List, [], ◌∷◌, ◌++◌, if◌then◌else◌, codes, length,
}
use auto_ops.Prelude.Search.{starts_with}
use auto_ops.Paging.{drop}
use auto_ops.Exec.{Result, ok, err}
use auto_ops.Urn.{Text, sanitize_urn_segment, ◌>>=◌}

-- `urn:autoops:${provider}:${slug}:${kind}/${name}`, whose provider and kind are literals.
abbrev pub urn_of : (provider kind : String) → (slug name : Text) → Text
urn_of provider kind slug name =
    codes "urn:autoops:" ++ (codes provider ++ b':' ∷ (slug ++ b':' ∷ (codes kind ++ b'/' ∷ name)))

abbrev named : (provider kind : String) → (slug name : Text) → Result Text
named provider kind slug name = do
  s ← sanitize_urn_segment slug
  n ← sanitize_urn_segment name
  ok (urn_of provider kind s n)

-- A name whose last part is a literal.
abbrev only : (provider kind : String) → Text → (slug : Text) → Result Text
only provider kind name slug = do s ← sanitize_urn_segment slug; ok (urn_of provider kind s name)

unfoldable pub build_jenkins_job_urn : (instance_slug job_name : Text) → Result Text
unfolding sanitize_urn_segment
build_jenkins_job_urn = named "jenkins" "job"

unfoldable pub build_jenkins_instance_urn : (instance_slug : Text) → Result Text
unfolding sanitize_urn_segment
build_jenkins_instance_urn = only "jenkins" "instance" (codes "default")

-- `text.replace(word, by)`: the first occurrence.
unfoldable pub replace_first : (word by : Text) → Text → Text
unfolding starts_with drop
replace_first word by [] = if starts_with [] word then by else []
replace_first word by (c ∷ s) =
    let rest = c ∷ replace_first word by s in
    if starts_with (c ∷ s) word then by ++ drop (length word) (c ∷ s) else rest

unfoldable pub build_jenkins_build_urn : (instance_slug job_name build_number : Text) → Result Text
unfolding build_jenkins_job_urn sanitize_urn_segment replace_first
build_jenkins_build_urn instance_slug job_name build_number = do
  job ← build_jenkins_job_urn instance_slug job_name
  number ← sanitize_urn_segment build_number
  ok (replace_first (codes ":job/") (codes ":build/") job ++ b'/' ∷ number)

unfoldable pub build_docker_container_urn : (engine_slug container_name_or_id : Text) → Result Text
unfolding sanitize_urn_segment
build_docker_container_urn = named "docker" "container"

unfoldable pub build_docker_engine_urn : (engine_slug : Text) → Result Text
unfolding sanitize_urn_segment
build_docker_engine_urn = only "docker" "engine" (codes "default")

unfoldable pub build_docker_image_urn : (engine_slug image_id_or_repo_tag : Text) → Result Text
unfolding sanitize_urn_segment
build_docker_image_urn = named "docker" "image"

unfoldable pub build_docker_network_urn : (engine_slug network_name_or_id : Text) → Result Text
unfolding sanitize_urn_segment
build_docker_network_urn = named "docker" "network"

unfoldable pub build_docker_volume_urn : (engine_slug volume_name : Text) → Result Text
unfolding sanitize_urn_segment
build_docker_volume_urn = named "docker" "volume"

unfoldable pub build_kubernetes_cluster_urn : (cluster_slug : Text) → Result Text
unfolding sanitize_urn_segment
build_kubernetes_cluster_urn = only "kubernetes" "cluster" (codes "default")

unfoldable pub build_kubernetes_namespace_urn : (cluster_slug namespace : Text) → Result Text
unfolding sanitize_urn_segment
build_kubernetes_namespace_urn = named "kubernetes" "namespace"

unfoldable pub build_kubernetes_node_urn : (cluster_slug node_name : Text) → Result Text
unfolding sanitize_urn_segment
build_kubernetes_node_urn = named "kubernetes" "node"

-- A name below a namespace's.
abbrev below : (kind : String) → (cluster_slug namespace name : Text) → Result Text
below kind cluster_slug namespace name = do
  parent ← build_kubernetes_namespace_urn cluster_slug namespace
  n ← sanitize_urn_segment name
  ok (parent ++ b':' ∷ (codes kind ++ b'/' ∷ n))

unfoldable pub build_kubernetes_deployment_urn :
    (cluster_slug namespace deployment_name : Text) → Result Text
unfolding build_kubernetes_namespace_urn sanitize_urn_segment
build_kubernetes_deployment_urn = below "deployment"

unfoldable pub build_kubernetes_pod_urn : (cluster_slug namespace pod_name : Text) → Result Text
unfolding build_kubernetes_namespace_urn sanitize_urn_segment
build_kubernetes_pod_urn = below "pod"

unfoldable pub build_kubernetes_service_urn :
    (cluster_slug namespace service_name : Text) → Result Text
unfolding build_kubernetes_namespace_urn sanitize_urn_segment
build_kubernetes_service_urn = below "service"

-- A name of the program's own, which has no slug.
abbrev own : (kind : String) → (id : Text) → Result Text
own kind id = do
  n ← sanitize_urn_segment id
  ok (codes "urn:autoops:autoops:" ++ (codes kind ++ b'/' ∷ n))

unfoldable pub build_auto_ops_project_urn : (project_id : Text) → Result Text
unfolding sanitize_urn_segment
build_auto_ops_project_urn = own "project"

abbrev pub build_auto_ops_organization_urn : Text
build_auto_ops_organization_urn = codes "urn:autoops:autoops:organization/current"

unfoldable pub build_auto_ops_environment_urn : (environment_id : Text) → Result Text
unfolding sanitize_urn_segment
build_auto_ops_environment_urn = own "environment"

unfoldable pub build_auto_ops_deployment_urn : (deployment_id : Text) → Result Text
unfolding sanitize_urn_segment
build_auto_ops_deployment_urn = own "deployment"

unfoldable pub build_auto_ops_operation_urn : (operation_id : Text) → Result Text
unfolding sanitize_urn_segment
build_auto_ops_operation_urn = own "operation"
