-- ===== src/Controllers/StatefulPod/Finalizer.antt =====
-- `setFinalizer` of controllers/statefulpod/stateful_pod.go.
use iapetos.Api.{StatefulPod}
use iapetos.Controllers.StatefulPod
