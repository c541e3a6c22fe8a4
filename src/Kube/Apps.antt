-- ===== src/Kube/Apps.antt =====
-- Deployments (`appsv1`).
use nfs_provisioner_operator.Kube.Meta.{StringMap, ObjectMeta}
use nfs_provisioner_operator.Kube.Core.{PodSpec}

pub record Deployment : Type 0 where
  pub metadata : ObjectMeta
  pub match_labels : StringMap
  pub template_labels : StringMap
  pub pod : PodSpec
