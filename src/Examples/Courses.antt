-- ===== src/Examples/Courses.antt =====
-- A registered resource that a user deletes between two runs.
use nfs_provisioner_operator.Cluster.Memory.{Memory, memory}
use nfs_provisioner_operator.Controller.Steps.{run}
use nfs_provisioner_operator.Examples.Data.{req, registered, deleted, only, calm}

abbrev before : Memory
before = calm (only registered)

abbrev leaving : Memory
leaving = calm (only deleted)

abbrev after : Memory
after = (run memory req leaving).1
