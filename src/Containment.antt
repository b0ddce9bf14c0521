-- ===== src/Containment.antt =====
-- Pillar 5, self-healing containment: pillar5_containment/.
pub mod Graduated
pub mod KillSwitch
