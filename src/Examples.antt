-- ===== src/Examples.antt =====
-- Concrete inputs: whole numbers in place of decimals, and the theorems at work on them.
mod Whole
mod Points
mod Access
mod Delivery
mod Exchange
mod Office
mod Tills
mod Logins
mod SignIns
