-- ===== src/Program/Settle/Space.antt =====
-- What the space of a payment record leaves room for.
use maxim_contracts.State.PaymentRecord.{PaymentRecord}
use maxim_contracts.Chain.{Chain}
