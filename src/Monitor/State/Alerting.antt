-- ===== src/Monitor/State/Alerting.antt =====
-- How a group comes to be in ALERT over a whole sequence of observations, and stays there.
use ozymandias.Base.{◌≡◌, List, [], ◌∷◌, ◌++◌}
use ozymandias.Monitor.State.{Group, Observation, Config, step}
use ozymandias.Monitor.State.Steps.{Raises, Holds}
use ozymandias.Monitor.State.Runs.{run}

-- Every observation holds the alert of the group that it finds.
abbrev pub AllHold : Config → Group → List Observation → Type 0
AllHold c g [] = Unit {0}
AllHold c g (o ∷ os) = Holds g o c × AllHold c (step g o c).0 os

-- Some observation raises the alert, and all that follow hold it.
pub record IsRaised (c : Config) (g : Group) (os : List Observation) : Type 0 where
  pub before : List Observation
  pub trigger : Observation
  pub after : List Observation
  pub all : os ≡ before ++ trigger ∷ after
  pub raises : Raises (run c g before) trigger c
  pub held : AllHold c (step (run c g before) trigger c).0 after
