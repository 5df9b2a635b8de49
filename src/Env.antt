-- ===== src/Env.antt =====
-- What the program runs in: the Kubernetes API server, the condition and finalizer helpers of its
-- libraries, `docker-machine`, the files of the container, AWS and Azure. None of these is modelled:
-- each is a record of functions, and the model takes their answers from it. Whatever has a state of
-- its own answers from the history of all calls so far, so that any behaviour, in time too, is one
-- environment.
pub mod Event
pub mod Kubernetes
pub mod Container
pub mod Cloud
use docker_machine_operator.Env.Kubernetes.{Client, Conditions, Finalizers}
use docker_machine_operator.Env.Container.{Host}
use docker_machine_operator.Env.Cloud.{Ec2, Azure}

pub record Env : Type 0 where
  pub client : Client
  pub open client use *
  pub conditions : Conditions
  pub open conditions use *
  pub finalizers : Finalizers
  pub open finalizers use *
  pub host : Host
  pub open host use *
  pub ec2 : Ec2
  pub open ec2 use *
  pub azure : Azure
  pub open azure use *
