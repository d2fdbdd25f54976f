-- ===== src/Dsp.antt =====
-- src/rtl_dsp.c: the channel filter of an I/Q client. Plan is about the choice of the filters, Filter
-- about the running of them.
pub mod Plan
pub mod Filter
