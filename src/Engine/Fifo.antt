-- ===== src/Engine/Fifo.antt =====
-- The order in which internal/engine/event.go hands out events that tie in time and priority.
use mathlib.Core.Logic.Or
use simulation_core.Base.{List}
use simulation_core.Engine.Event.{Event}
use simulation_core.Engine.State.{Engine}
