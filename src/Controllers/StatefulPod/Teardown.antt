-- ===== src/Controllers/StatefulPod/Teardown.antt =====
-- `deleteStatefulPod` of controllers/statefulpod/stateful_pod.go once nothing of the object is left.
use iapetos.Api.{StatefulPod}
use iapetos.Controllers.StatefulPod
